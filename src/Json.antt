-- ===== src/Json.antt =====
-- What the server uses of the crate `serde_json`: its `Value`, the parts that the `json!` macro
-- builds, and the two conversions with text. The crate is a parameter of the model.
use data_sync.Base.{ℕ, ◌≡◌, ◌↔◌, Bool, true, List, Result}
use data_sync.Dict.{Dict}
use data_sync.Text.{Text}

pub record Json (Value : Type 0) : Type 0 where
  pub null : Value
  pub is_null : Value → Bool
  pub is_null_iff : (v : Value) → (is_null v ≡ true) ↔ (v ≡ null)
  pub boolean : Bool → Value
  pub number : ℕ → Value
  pub string : Text → Value
  pub array : List Value → Value
  pub object : Dict Text Value → Value
  pub to_string : Value → Text
  -- The error is the text that `Display` gives for it.
  pub from_str : Text → Result Text Value
