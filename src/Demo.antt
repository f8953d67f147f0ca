-- ===== src/Demo.antt =====
-- The demo programs under demo/.
pub mod ServerCli
pub mod ClientCli
