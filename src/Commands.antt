-- ===== src/Commands.antt =====
-- syncpond-server/src/commands.rs: the command protocol. The parser is in `Token`, the arms of
-- `process_command` in `Handlers`, and the dispatch in `Process`.
pub mod Token
pub mod Arguments
pub mod Handlers
pub mod Process
pub mod Lines
