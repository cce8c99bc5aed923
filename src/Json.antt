-- ===== src/Json.antt =====
-- A `serde_json::Value` as src/daemon.rs and src/agent.rs read and write it: an object whose fields
-- are looked at as texts, as flags, as natural numbers and as arrays of texts. An element that is no text
-- is `none`; any other value is `other`.
use zeptopm.Base.{ℕ, String, Bool, Option, none, some, List, [], Map, get, unwrap_or, filter_map}

pub data Field : Type 0 where
  text : String → Field
  array : List (Option String) → Field
  flag : Bool → Field
  number : ℕ → Field
  other : Field

abbrev pub Json : Type 0
Json = Map Field

-- `v.get(key).and_then(|v| v.as_str())`
abbrev pub as_str : Option Field → Option String
as_str (some (text s)) = some s
as_str _ = none

unfoldable pub get_str : String → Json → Option String
get_str key v = as_str (get key v)

-- `.. .unwrap_or("")`
unfoldable pub str_or_empty : String → Json → String
unfolding get_str
str_or_empty key v = unwrap_or (get_str key v) ""

-- `v.get(key).and_then(|v| v.as_array())`, with its elements that are texts, or nothing.
abbrev pub texts_of : Option Field → List String
texts_of (some (array xs)) = filter_map (λ x. x) xs
texts_of _ = []

unfoldable pub get_texts : String → Json → List String
get_texts key v = texts_of (get key v)

-- `v.get(key).and_then(|v| v.as_bool())`
abbrev pub as_bool : Option Field → Option Bool
as_bool (some (flag b)) = some b
as_bool _ = none

unfoldable pub get_bool : String → Json → Option Bool
get_bool key v = as_bool (get key v)
