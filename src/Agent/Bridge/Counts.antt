-- ===== src/Agent/Bridge/Counts.antt =====
-- src/agent.rs: how often a sender stands in a list or in a map, and the ids of requests.
use zeptopm.Base.{
  ℕ, suc, ◌+◌, ◌<◌, ◌==◌, String, ◌≡◌, refl, ap, arith, false, if◌then◌else◌, some, List, [], ◌∷◌,
  ◌++◌, map, Map, get, insert, remove, contains_key, values, Distinct, str_eq→eq, ◌⊎◌, show_nat,
  show_nat-inj, u64_mod,
}
use text.Mathlib.TextLemmas.{append_cancel_left, append_cancel_right}
use zeptopm.Agent.Bridge.{request_id}

abbrev pub occurrences : ℕ → List ℕ → ℕ
occurrences t [] = 0
occurrences t (x ∷ xs) = let rest = occurrences t xs in if x == t then suc rest else rest

pub occurrences-append :
    (t : ℕ) (xs ys : List ℕ) → occurrences t (xs ++ ys) ≡ occurrences t xs + occurrences t ys
occurrences-append t [] ys = omega arith
occurrences-append t (x ∷ xs) ys = ground (arith, occurrences-append t xs ys)

pub map-append :
    (rs ss : List (ℕ × (String ⊎ String)))
    → map {B = ℕ} (λ r. r.0) (rs ++ ss) ≡ map (λ r. r.0) rs ++ map (λ r. r.0) ss
map-append [] ss = refl
map-append (r ∷ rs) ss = ap (λ xs. r.0 ∷ xs) (map-append rs ss)

pub occurrences-insert :
    (t : ℕ) (k : String) (v : ℕ) (m : Map ℕ)
    → contains_key k m ≡ false
    → occurrences t (values (insert k v m)) ≡ occurrences t (values m) + occurrences t (v ∷ [])
unfolding insert get
occurrences-insert t k v [] h = omega arith
occurrences-insert t k v ((j, w) ∷ m) h = ground (arith, h, occurrences-insert t k v m)

pub remove_absent : (k : String) (m : Map ℕ) → contains_key k m ≡ false → remove k m ≡ m
unfolding remove get
remove_absent k [] h = refl
remove_absent k ((j, w) ∷ m) h = ground (arith, h, remove_absent k m)

pub occurrences-remove :
    (t : ℕ) (k : String) (v : ℕ) (m : Map ℕ)
    → Distinct m
    → get k m ≡ some v
    → occurrences t (values (remove k m)) + occurrences t (v ∷ []) ≡ occurrences t (values m)
unfolding remove get
occurrences-remove t k v [] d h = cc
occurrences-remove t k v ((j, w) ∷ m) d h =
    ground (arith, h, d.0, str_eq→eq j k, remove_absent k m, occurrences-remove t k v m d.1)

pub request_id-inj : (m n : ℕ) → m < u64_mod → n < u64_mod → request_id m ≡ request_id n → m ≡ n
request_id-inj m n hm hn e =
    show_nat-inj m n (omega (arith, hm)) (omega (arith, hn))
      (append_cancel_right (show_nat m) (show_nat n) "" (append_cancel_left "req-" _ _ e))
