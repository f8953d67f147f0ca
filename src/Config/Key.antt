-- ===== src/Config/Key.antt =====
-- A key that is configured with white space around it.
use data_sync.Base.{ℕ, ◌≡◌, ◌≢◌, Bool, Option, some, List, ok, sym, ap, ◌∙◌, subst}
use data_sync.Text.{Text}
use data_sync.Text.Trim.{trim, trim-trim}
use data_sync.Text.Utf8.{IsUnicode}
use mathlib.Core.Option
use data_sync.Json.{Json}
use data_sync.Jwt.{Jwt}
use data_sync.Hub.{Channel}
use data_sync.Config.{SyncpondConfig, Start, configure}
use data_sync.Config.Accepted.{configure_iff, settings_of}
use data_sync.Console.{Shared, Turn, handle_command_connection}
use data_sync.Reading.{line}
use data_sync.Console.Key.{IsRefused, IsWrong, handle_command_connection-IsRefused}

untrimmed-IsWrong :
    (key text : Text)
    → IsUnicode key
    → IsUnicode (trim text)
    → trim key ≢ key
    → IsWrong (some key) text
untrimmed-IsWrong key text u v other = record {
  provided_IsUnicode = v;
  differs = λ key' p. (
    subst IsUnicode (Option.some_inj.0 p) u,
    λ e.
        let q : trim text ≡ key = e ∙ sym (Option.some_inj.0 p) in
        other (ap trim (sym q) ∙ trim-trim text ∙ q),
  );
}

module _ {SocketAddr Value Sender : Type 0} ⦃json : Json Value⦄ (jwt : Jwt)
    (channel : Channel Sender Value) (parse : Text → Option SocketAddr)
    (is_loopback : SocketAddr → Bool) where
  -- Where the servers are started with a key (of Unicode) that has white space around it, every
  -- connection is refused whose first line, trimmed, is Unicode, as long as the key is not changed.
  pub configure-IsRefused :
      (config : SyncpondConfig) (start : Start SocketAddr Value)
      → configure parse is_loopback config ≡ ok start
      → IsUnicode config.command_api_key
      → trim config.command_api_key ≢ config.command_api_key
      → (ip : Text) (now now' : ℕ) (text : Text) (written : Bool) (turns : List Turn)
        (s : Shared Value Sender)
      → IsUnicode (trim text)
      → s.app.command_api_key ≡ start.app.command_api_key
      → let r =
          handle_command_connection jwt channel start.limits ip now now'
            (line text)
            written
            turns
            s in
        IsRefused r.0 s r.1
  unfolding settings_of
  configure-IsRefused config start p u other ip now now' text written turns s v same =
      let a = (configure_iff parse is_loopback config start).0 p in
      let key : s.app.command_api_key ≡ some config.command_api_key =
        same ∙ ap (λ (x : Start SocketAddr Value). x.app.command_api_key) a.settings in
      handle_command_connection-IsRefused jwt channel start.limits ip now now' text written turns s
        (subst (λ key. IsWrong key text) (sym key)
          (untrimmed-IsWrong config.command_api_key text u v other))
