-- ===== src/Base/Dicts.antt =====
-- `HashMap<String, V>` as an association list. The order of the list stands for the order in
-- which the map is iterated, which the program leaves to the hash.
use Prim.Native.Nat.{suc, ◌≤◌, ◌<◌}
use Prim.Native.String.{String}
use mathlib.Core.Path.{◌≡◌, refl, ap}
use mathlib.Core.Logic.{inl, inr}
use mathlib.Core.Bool.{Bool, true, false}
use mathlib.Core.List.{List, [], ◌∷◌, map}
use mathlib.Core.Option.{Option, none, some}
use native.Mathlib.Omega.{arith}
use zeptopm.Base.Tests.{if◌then◌else◌, is_some, is_some_and, map_option, Bool-cases}
use zeptopm.Base.Lists.{length, filter, any}
use zeptopm.Base.Text.{str_eq, contains, str_eq→eq, str_eq_refl, eq→str_eq, str_eq_comm}

abbrev pub Map {ℓ} : Type ℓ → Type ℓ
Map V = List (String × V)

module _ {ℓ} {V : Type ℓ} where
  unfoldable pub get : String → Map V → Option V
  get k [] = none
  get k ((j, v) ∷ m) = if str_eq j k then some v else get k m

  unfoldable pub insert : String → V → Map V → Map V
  insert k v [] = (k, v) ∷ []
  insert k v ((j, w) ∷ m) = if str_eq j k then (j, v) ∷ m else (j, w) ∷ insert k v m

  -- `if let Some(v) = m.get_mut(k) { *v = f(v) }`
  unfoldable pub modify : String → (V → V) → Map V → Map V
  modify k f [] = []
  modify k f ((j, w) ∷ m) = if str_eq j k then (j, f w) ∷ m else (j, w) ∷ modify k f m

  unfoldable pub remove : String → Map V → Map V
  remove k [] = []
  remove k ((j, w) ∷ m) = let rest = remove k m in if str_eq j k then rest else (j, w) ∷ rest

  abbrev pub contains_key : String → Map V → Bool
  contains_key k m = is_some (get k m)

  abbrev pub keys : Map V → List String
  keys = map (λ e. e.0)

  abbrev pub values : Map V → List V
  values = map (λ e. e.1)

  pub get-insert :
      (j k : String) (v : V) (m : Map V)
      → get j (insert k v m) ≡ (if str_eq k j then some v else get j m)
  unfolding get insert
  get-insert j k v [] = refl
  get-insert j k v ((i, w) ∷ m) = ground (
    arith,
    str_eq→eq k j,
    str_eq→eq i k,
    str_eq→eq i j,
    str_eq_refl j,
    eq→str_eq i j,
    eq→str_eq k j,
    eq→str_eq i k,
    get-insert j k v m,
  )

  pub get-modify :
      (j k : String) (f : V → V) (m : Map V)
      → get j (modify k f m) ≡ (if str_eq k j then map_option f (get j m) else get j m)
  unfolding get modify
  get-modify j k f [] = ground arith
  get-modify j k f ((i, w) ∷ m) = ground (
    arith,
    str_eq→eq k j,
    str_eq→eq i k,
    str_eq→eq i j,
    str_eq_refl j,
    eq→str_eq i j,
    eq→str_eq k j,
    eq→str_eq i k,
    get-modify j k f m,
  )

  pub get-remove :
      (j k : String) (m : Map V) → get j (remove k m) ≡ (if str_eq k j then none else get j m)
  unfolding get remove
  get-remove j k [] = ground arith
  get-remove j k ((i, w) ∷ m) = ground (
    arith,
    str_eq→eq k j,
    str_eq→eq i k,
    str_eq→eq i j,
    str_eq_refl j,
    eq→str_eq i j,
    eq→str_eq k j,
    eq→str_eq i k,
    get-remove j k m,
  )

  pub get-insert_self : (k : String) (v : V) (m : Map V) → get k (insert k v m) ≡ some v
  get-insert_self k v m = rw (get-insert k k v m, str_eq_refl k) refl

  pub length-insert :
      (k : String) (v : V) (m : Map V)
      → length (insert k v m) ≡ (if contains_key k m then length m else suc (length m))
  unfolding get insert
  length-insert k v [] = refl
  length-insert k v ((i, w) ∷ m) = ground (arith, length-insert k v m)

  pub length-modify : (k : String) (f : V → V) (m : Map V) → length (modify k f m) ≡ length m
  unfolding modify
  length-modify k f [] = refl
  length-modify k f ((i, w) ∷ m) = ground (arith, length-modify k f m)

  pub length-remove-le : (k : String) (m : Map V) → length (remove k m) ≤ length m
  unfolding remove
  length-remove-le k [] = omega arith
  length-remove-le k ((i, w) ∷ m) = ground (arith, length-remove-le k m)

  pub length-remove-lt :
      (k : String) (m : Map V) → contains_key k m ≡ true → length (remove k m) < length m
  unfolding get remove
  length-remove-lt k [] h = cc
  length-remove-lt k ((i, w) ∷ m) h = ground (arith, length-remove-le k m, length-remove-lt k m)

  -- No key stands twice: what the type `HashMap` guarantees.
  abbrev pub Distinct : Map V → Type 0
  Distinct [] = Unit {0}
  Distinct ((k, v) ∷ m) = (contains_key k m ≡ false) × Distinct m

  pub contains_key-insert :
      (j k : String) (v : V) (m : Map V)
      → contains_key j (insert k v m) ≡ (if str_eq k j then true else contains_key j m)
  contains_key-insert j k v m = ground (arith, get-insert j k v m)

  pub contains_key-modify :
      (j k : String) (f : V → V) (m : Map V) → contains_key j (modify k f m) ≡ contains_key j m
  contains_key-modify j k f m = ground (arith, get-modify j k f m)

  pub Distinct-insert : (k : String) (v : V) (m : Map V) → Distinct m → Distinct (insert k v m)
  unfolding insert
  Distinct-insert k v [] d = (unfold get in refl, tt)
  Distinct-insert k v ((i, w) ∷ m) d =
      ground (arith, Distinct-insert k v m d.1, contains_key-insert i k v m, str_eq_comm i k)

  pub Distinct-modify : (k : String) (f : V → V) (m : Map V) → Distinct m → Distinct (modify k f m)
  unfolding modify
  Distinct-modify k f [] d = tt
  Distinct-modify k f ((i, w) ∷ m) d =
      ground (arith, Distinct-modify k f m d.1, contains_key-modify i k f m)

  pub Distinct-remove : (k : String) (m : Map V) → Distinct m → Distinct (remove k m)
  unfolding remove
  Distinct-remove k [] d = tt
  Distinct-remove k ((i, w) ∷ m) d = ground (arith, Distinct-remove k m d.1, get-remove i k m)

  -- Each entry stands under the key that its value carries.
  abbrev pub Keyed : (V → String) → Map V → Type 0
  Keyed id [] = Unit {0}
  Keyed id ((k, v) ∷ m) = (id v ≡ k) × Keyed id m

  pub Keyed-insert :
      (id : V → String) (k : String) (v : V) (m : Map V)
      → id v ≡ k
      → Keyed id m
      → Keyed id (insert k v m)
  unfolding insert
  Keyed-insert id k v [] e h = (e, tt)
  Keyed-insert id k v ((i, w) ∷ m) e h = ground (arith, Keyed-insert id k v m e h.1, str_eq→eq i k)

  pub Keyed-modify :
      (id : V → String) (k : String) (f : V → V) (m : Map V)
      → ((v : V) → id (f v) ≡ id v)
      → Keyed id m
      → Keyed id (modify k f m)
  unfolding modify
  Keyed-modify id k f [] e h = tt
  Keyed-modify id k f ((i, w) ∷ m) e h = ground (arith, Keyed-modify id k f m e h.1, e w)

  pub Keyed-remove : (id : V → String) (k : String) (m : Map V) → Keyed id m → Keyed id (remove k m)
  unfolding remove
  Keyed-remove id k [] h = tt
  Keyed-remove id k ((i, w) ∷ m) h = ground (arith, Keyed-remove id k m h.1)

  pub Keyed-get :
      (id : V → String) (k : String) (v : V) (m : Map V) → Keyed id m → get k m ≡ some v → id v ≡ k
  unfolding get
  Keyed-get id k v [] h e = cc
  Keyed-get id k v ((i, w) ∷ m) h e = ground (arith, Keyed-get id k v m h.1, str_eq→eq i k)

  -- What is found under a key is among the values.
  pub get-any :
      (p : V → Bool) (k : String) (v : V) (m : Map V)
      → get k m ≡ some v
      → p v ≡ true
      → any p (values m) ≡ true
  unfolding get
  get-any p k v [] e h = cc
  get-any p k v ((i, w) ∷ m) e h = ground (arith, get-any p k v m)

  -- A value among the entries of a map with distinct keys is found under its key.
  pub any-get :
      (p : V → Bool) (m : Map V)
      → Distinct m
      → any p (values m) ≡ true
      → (k : String) × (v : V) × (get k m ≡ some v) × (p v ≡ true)
  unfolding get
  any-get p [] d h = cc
  any-get p ((i, w) ∷ m) d h = elim (Bool-cases (p w)) [
    | inl e ↦ (i, w, ground (arith, str_eq_refl i), e)
    | inr e ↦ later (any-get p m d.1 (ground arith))
  ]
    where
      later :
          (k : String) × (v : V) × (get k m ≡ some v) × (p v ≡ true)
          → (k : String) × (v : V) × (get k ((i, w) ∷ m) ≡ some v) × (p v ≡ true)
      later (k, v, e, t) = (k, v, ground (arith, d.0, str_eq→eq i k), t)

  -- `for k in ks { m.remove(k); }`
  unfoldable pub remove_all : List String → Map V → Map V
  remove_all [] m = m
  remove_all (k ∷ ks) m = remove_all ks (remove k m)

  pub get-remove_all :
      (j : String) (ks : List String) (m : Map V)
      → get j (remove_all ks m) ≡ (if contains j ks then none else get j m)
  unfolding remove_all contains
  get-remove_all j [] m = refl
  get-remove_all j (k ∷ ks) m = ground (arith, get-remove_all j ks (remove k m), get-remove j k m)

  pub Distinct-remove_all : (ks : List String) (m : Map V) → Distinct m → Distinct (remove_all ks m)
  unfolding remove_all
  Distinct-remove_all [] m d = d
  Distinct-remove_all (k ∷ ks) m d = Distinct-remove_all ks (remove k m) (Distinct-remove k m d)

  pub Keyed-remove_all :
      (id : V → String) (ks : List String) (m : Map V) → Keyed id m → Keyed id (remove_all ks m)
  unfolding remove_all
  Keyed-remove_all id [] m d = d
  Keyed-remove_all id (k ∷ ks) m d = Keyed-remove_all id ks (remove k m) (Keyed-remove id k m d)

  -- The ids of the values that pass a test are the keys whose value passes it.
  pub contains-ids_where :
      (id : V → String) (p : V → Bool) (k : String) (m : Map V)
      → Distinct m
      → Keyed id m
      → contains k (map id (filter p (values m))) ≡ is_some_and p (get k m)
  unfolding get contains
  contains-ids_where id p k [] d h = refl
  contains-ids_where id p k ((i, w) ∷ m) d h = ground (
    arith,
    contains-ids_where id p k m d.1 h.1,
    d.0,
    h.0,
    str_eq→eq i k,
    ap (λ t. str_eq t k) h.0,
  )

  -- So removing these ids removes exactly those entries.
  pub get-remove_where :
      (id : V → String) (p : V → Bool) (k : String) (m : Map V)
      → Distinct m
      → Keyed id m
      → get k (remove_all (map id (filter p (values m))) m)
        ≡ (if is_some_and p (get k m) then none else get k m)
  get-remove_where id p k m d h =
      ground
        (arith, get-remove_all k (map id (filter p (values m))) m, contains-ids_where id p k m d h)

module _ {ℓ} {V : Type ℓ} where
  -- A table of records, each under its own id.
  abbrev pub IsIndexed : (V → String) → Map V → Type 0
  IsIndexed id m = Distinct m × Keyed id m

  pub IsIndexed-insert :
      (id : V → String) (v : V) (m : Map V) → IsIndexed id m → IsIndexed id (insert (id v) v m)
  IsIndexed-insert id v m h = (Distinct-insert (id v) v m h.0, Keyed-insert id (id v) v m refl h.1)

  pub IsIndexed-modify :
      (id : V → String) (k : String) (f : V → V) (m : Map V)
      → ((v : V) → id (f v) ≡ id v)
      → IsIndexed id m
      → IsIndexed id (modify k f m)
  IsIndexed-modify id k f m e h = (Distinct-modify k f m h.0, Keyed-modify id k f m e h.1)

  pub IsIndexed-remove :
      (id : V → String) (k : String) (m : Map V) → IsIndexed id m → IsIndexed id (remove k m)
  IsIndexed-remove id k m h = (Distinct-remove k m h.0, Keyed-remove id k m h.1)

  pub IsIndexed-remove_all :
      (id : V → String) (ks : List String) (m : Map V)
      → IsIndexed id m
      → IsIndexed id (remove_all ks m)
  IsIndexed-remove_all id ks m h = (Distinct-remove_all ks m h.0, Keyed-remove_all id ks m h.1)
