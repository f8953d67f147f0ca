-- ===== src/Tests/Sample.antt =====
-- A JSON library for the tests: a value is the text that it is printed as.
use data_sync.Base.{List, [], ◌∷◌, ◌++◌, ok, err, if◌then◌else◌, ◌==◌, ==_iff}
use data_sync.Dict.{Dict}
use data_sync.Text.{Text, lit, text_eq, is_empty}
use data_sync.Text.Number.{print_u64}
use data_sync.Json.{Json}

abbrev pub joined : List Text → Text
joined [] = []
joined (x ∷ []) = x
joined (x ∷ y ∷ xs) = x ++ lit "," ++ joined (y ∷ xs)

abbrev pub fields : Dict Text Text → List Text
fields [] = []
fields ((name, value) ∷ m) = (lit "\"" ++ name ++ lit "\":" ++ value) ∷ fields m

instance abbrev pub sample_json : Json Text
sample_json = record {
  null = lit "null";
  is_null = λ v. v == lit "null";
  is_null_iff = λ v. ==_iff v (lit "null");
  boolean = λ b. if b then lit "true" else lit "false";
  number = print_u64;
  string = λ s. lit "\"" ++ s ++ lit "\"";
  array = λ items. lit "[" ++ joined items ++ lit "]";
  object = λ m. lit "{" ++ joined (fields m) ++ lit "}";
  to_string = λ v. v;
  from_str = λ s. if is_empty s then err (lit "EOF while parsing a value") else ok s;
}
