-- ===== src/Database.antt =====
-- What src/orchestrator/sqlite_store.rs takes from the crates rusqlite and serde_json and from the
-- standard library's floats: interfaces, with what their documentation promises.
use zeptopm.Base.{String, ◌≡◌, if◌then◌else◌, Option, none, some, List, [], ◌∷◌, Map, get, str_eq}
use zeptopm.Types.{RunId, Time, ChannelMessage}

-- A table with a primary key. A statement that fails is `none` and changes nothing.
pub record TableOps (R : Type 0) : Type 1 where
  pub Table : Type 0
  -- The row under a primary key.
  pub row : String → Table → Option R
  -- `INSERT OR REPLACE INTO`
  pub insert_or_replace : R → Table → Option Table
  -- `DELETE FROM .. WHERE run_id = ?1`
  pub delete_where_run : RunId → Table → Option Table
  -- `SELECT .. FROM`
  pub select : Table → Option (List R)

-- The first element with a key.
abbrev pub find : {R : Type 0} → (R → String) → String → List R → Option R
find key k [] = none
find key k (r ∷ rs) = if str_eq (key r) k then some r else find key k rs

-- A replaced row is found under its key, the other rows stay, and all rows are selected.
pub record IsTable {R : Type 0} (key : R → String) (ops : TableOps R) : Type 0 where
  pub inserted :
      (r : R) (t t' : ops.Table)
      → ops.insert_or_replace r t ≡ some t'
      → (k : String) → ops.row k t' ≡ (if str_eq (key r) k then some r else ops.row k t)
  pub selected :
      (t : ops.Table) (rs : List R)
      → ops.select t ≡ some rs
      → (k : String) → find key k rs ≡ ops.row k t

-- `serde_json::to_string` and `serde_json::from_str` at the types that are stored, over the texts
-- that they write, of which the default is the empty one, and seconds as an `f64`.
pub record Codec : Type 1 where
  pub F64 : Type 0
  pub Json : Type 0
  pub as_secs_f64 : Time → F64
  pub from_secs_f64 : F64 → Time
  pub empty : Json
  pub strings_to_json : List String → Option Json
  pub strings_from_json : Json → Option (List String)
  pub messages_to_json : List ChannelMessage → Option Json
  pub messages_from_json : Json → Option (List ChannelMessage)
  pub map_to_json : Map String → Option Json
  pub map_from_json : Json → Option (Map String)

-- A value that was written is read back. A `HashMap` comes back with the same entries.
pub record IsCodec (c : Codec) : Type 0 where
  pub strings :
      (xs : List String)
      → (s : c.Json) × (c.strings_to_json xs ≡ some s) × (c.strings_from_json s ≡ some xs)
  pub messages :
      (xs : List ChannelMessage)
      → (s : c.Json) × (c.messages_to_json xs ≡ some s) × (c.messages_from_json s ≡ some xs)
  pub maps :
      (m : Map String)
      → (s : c.Json) × (m' : Map String) × (c.map_to_json m ≡ some s)
        × (c.map_from_json s ≡ some m')
        × ((k : String) → get k m' ≡ get k m)
