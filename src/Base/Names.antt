-- ===== src/Base/Names.antt =====
-- Lists of names without repetition, and texts that are blank.
use Prim.Native.Nat.{ℕ}
use Prim.Native.Char.{code}
use Prim.Native.String.{String}
use mathlib.Core.Path.{◌≡◌, refl, ap}
use mathlib.Core.Logic.{inl, inr}
use mathlib.Core.Bool.{Bool, true, false, ◌&&◌, ◌||◌}
use mathlib.Core.List.{List, [], ◌∷◌, ◌++◌}
use native.Mathlib.Omega.{arith}
use text.Mathlib.Text.{starts_with}
use zeptopm.Base.Tests.{leb, ◌==◌, if◌then◌else◌, Bool-cases}
use zeptopm.Base.Lists.{filter, all}
use zeptopm.Base.Text.{str_eq, contains, str_eq→eq, str_eq_comm, str_eq_refl, format}

-- No name stands twice.
abbrev pub IsNodup : List String → Type 0
IsNodup [] = Unit {0}
IsNodup (x ∷ xs) = (contains x xs ≡ false) × IsNodup xs

pub contains-append :
    (a : String) (xs ys : List String) → contains a (xs ++ ys) ≡ (contains a xs || contains a ys)
unfolding contains
contains-append a [] ys = refl
contains-append a (x ∷ xs) ys = ground (arith, contains-append a xs ys)

pub contains-head :
    (a x : String) (xs : List String) → contains a (x ∷ xs) ≡ (str_eq x a || contains a xs)
unfolding contains
contains-head a x xs = refl

pub IsNodup-append :
    (xs ys : List String)
    → IsNodup xs
    → IsNodup ys
    → ((a : String) → contains a xs ≡ true → contains a ys ≡ false)
    → IsNodup (xs ++ ys)
unfolding contains
IsNodup-append [] ys hx hy apart = hy
IsNodup-append (x ∷ xs) ys hx hy apart = (
  ground (arith, contains-append x xs ys, hx.0, apart x, str_eq_refl x),
  IsNodup-append xs ys hx.1 hy (λ a e. apart a (ground (arith, e))),
)

-- `char::is_whitespace`: the characters with the property White_Space.
abbrev pub is_whitespace : ℕ → Bool
is_whitespace c =
    (leb 9 c && leb c 13)
    || c == 32
    || c == 0x85
    || c == 0xa0
    || c == 0x1680
    || (leb 0x2000 c && leb c 0x200a)
    || c == 0x2028
    || c == 0x2029
    || c == 0x202f
    || c == 0x205f
    || c == 0x3000

-- `s.trim().is_empty()`
unfoldable pub is_blank : String → Bool
is_blank String.[] = true
is_blank (String.◌∷◌ c s) = is_whitespace (code c) && is_blank s

ends_with_slash : String → Bool
ends_with_slash String.[] = false
ends_with_slash (String.◌∷◌ c String.[]) = code c == b'/'
ends_with_slash (String.◌∷◌ c (String.◌∷◌ d s)) = ends_with_slash (String.◌∷◌ d s)

-- `Path::join` on Unix: an absolute path replaces, and one separator stands between.
unfoldable pub path_join : String → String → String
unfolding ends_with_slash str_eq
path_join base p =
    if starts_with p "/"
    then p
    else if str_eq base "" || ends_with_slash base
    then format (base ∷ p ∷ [])
    else format (base ∷ "/" ∷ p ∷ [])

pub contains-filter :
    (a : String) (p : String → Bool) (xs : List String)
    → contains a (filter p xs) ≡ (contains a xs && p a)
unfolding contains
contains-filter a p [] = refl
contains-filter a p (x ∷ xs) = elim (Bool-cases (str_eq x a)) [
  | inl e ↦ ground (arith, contains-filter a p xs, ap p (str_eq→eq x a e))
  | inr e ↦ ground (arith, contains-filter a p xs)
]

-- A filtered list of names names nothing twice if the list does not.
pub IsNodup-filter : (p : String → Bool) (xs : List String) → IsNodup xs → IsNodup (filter p xs)
IsNodup-filter p [] h = tt
IsNodup-filter p (x ∷ xs) h = ground (arith, contains-filter x p xs, IsNodup-filter p xs h.1, h.0)

-- A name added at the end.
pub contains-snoc :
    (a : String) (xs : List String) (x : String)
    → contains a (xs ++ x ∷ []) ≡ (contains a xs || str_eq x a)
unfolding contains
contains-snoc a [] x = ground arith
contains-snoc a (y ∷ ys) x = ground (arith, contains-snoc a ys x)

pub IsNodup-snoc :
    (xs : List String) (x : String) → contains x xs ≡ false → IsNodup xs → IsNodup (xs ++ x ∷ [])
unfolding contains
IsNodup-snoc [] x new h = (refl, tt)
IsNodup-snoc (y ∷ ys) x new h =
    ground (arith, new, contains-snoc y ys x, IsNodup-snoc ys x, str_eq_comm x y, h.0)

-- One name that fails a test makes it fail on the list.
pub all-eq_false :
    (p : String → Bool) (a : String) (xs : List String)
    → contains a xs ≡ true
    → p a ≡ false
    → all p xs ≡ false
unfolding contains
all-eq_false p a [] h f = cc
all-eq_false p a (x ∷ xs) h f = elim (Bool-cases (str_eq x a)) [
  | inl e ↦ ground (arith, ap p (str_eq→eq x a e), f)
  | inr e ↦ ground (arith, all-eq_false p a xs, e, h, f)
]
