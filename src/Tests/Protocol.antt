-- ===== src/Tests/Protocol.antt =====
-- Tokens, arguments and replies of the command protocol.
use data_sync.Base.{◌≡◌, refl, arith, [], ◌∷◌, ◌++◌, ok, nat_eq}
use data_sync.Text.{Text, lit, is_whitespace}
use data_sync.State.{new}
use data_sync.Commands.Token.{take_token}
use data_sync.Commands.Token.Quoting.{quote, take_token-quote, take_token_word}
use data_sync.Commands.Arguments.{all_tokens, token_loop}
use data_sync.Commands.Arguments.Loop.{all_tokens-write_names, token_loop_fuel, write_names}
use data_sync.Commands.Process.{process_command}
use data_sync.Commands.Process.Replies.{IsReply, process_command-IsReply}
use data_sync.Tests.Sample.{sample_json}
use data_sync.Tests.Signing.{sample_jwt}

token_read_back : take_token (quote (lit "a \"b\"") ++ lit " c") ≡ ok (lit "a \"b\"", lit " c")
token_read_back = take_token-quote (lit "a \"b\"") (lit " c")

take_bare : take_token (lit "G" ++ lit " 1") ≡ ok (lit "G", lit " 1")
take_bare =
    take_token_word b'G' [] (lit " 1") (unfold is_whitespace in refl, tt) (omega arith)
      (unfold is_whitespace in refl)

two_names_read : all_tokens (write_names (lit "a b" ∷ lit "" ∷ [])) ≡ ok (lit "a b" ∷ lit "" ∷ [])
two_names_read = all_tokens-write_names (lit "a b" ∷ lit "" ∷ [])

token_loop_fuel_example : token_loop 5 (lit "a b") [] ≡ token_loop 9 (lit "a b") []
token_loop_fuel_example = token_loop_fuel 5 9 (lit "a b") [] (omega arith) (omega arith)

process_command-IsReply_example :
    IsReply {Value = Text} new (process_command sample_jwt 0 new (lit "ROOM.DELETE 7"))
process_command-IsReply_example = process_command-IsReply sample_jwt 0 new (lit "ROOM.DELETE 7")
