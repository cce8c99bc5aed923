-- ===== src/Base/Slices.antt =====
-- What the searching and trimming of texts hand out is cut from the text.
use Prim.Native.Char.{Char, code}
use Prim.Native.String.{String, ◌++◌}
use mathlib.Core.Path.{◌≡◌, refl, sym, ap, ◌∙◌}
use mathlib.Core.Logic.{inl, inr}
use mathlib.Core.Bool.{◌&&◌}
use mathlib.Core.Option.{Option, some}
use native.Mathlib.Omega.{arith}
use text.Mathlib.TextLemmas.{append-nil, append_assoc, cons-append, nil-append}
use text.Mathlib.TextEquality.{Char-path}
use zeptopm.Base.Tests.{◌==◌, Bool-cases, Option-cases}
use zeptopm.Base.Names.{is_whitespace}
use zeptopm.Base.Search.{strip_prefix, split_once, rsplit_once, trim_start, trim_end, trim, is_nil}

-- `s` stands somewhere in `t`.
abbrev pub IsPiece : String → String → Type 0
IsPiece s t = (a : String) × ((b : String) × (t ≡ a ++ (s ++ b)))

pub IsPiece-refl : (s : String) → IsPiece s s
IsPiece-refl s = ("", ("", sym (nil-append (s ++ "") ∙ append-nil s)))

pub IsPiece-trans : (r s t : String) → IsPiece r s → IsPiece s t → IsPiece r t
IsPiece-trans r s t (a, (b, e)) (c, (d, f)) =
    (c ++ a, (b ++ d, rw (f, e) (simp (append_assoc) refl)))

pub strip_prefix-append : (p s r : String) → strip_prefix p s ≡ some r → s ≡ p ++ r
unfolding strip_prefix
strip_prefix-append String.[] s r h = ground (arith, h, nil-append r)
strip_prefix-append (String.◌∷◌ p ps) String.[] r h = cc
strip_prefix-append (String.◌∷◌ p ps) (String.◌∷◌ c s) r h = elim (Bool-cases (code p == code c)) [
  | inr e ↦ ground (arith, e, h)
  | inl e ↦
      let rest : strip_prefix ps s ≡ some r = ground (arith, e, h) in
      let same : p ≡ c = Char-path p c (ground (arith, e)) in
      rw (same, strip_prefix-append ps s r rest, cons-append c ps r) refl
]

same_pair :
    (x y a b : String)
    → Path (Option (String × String)) (some (x, y)) (some (a, b))
    → (x ≡ a) × (y ≡ b)
same_pair x y a b e = (cc, cc)

pub split_once-append : (pat s a b : String) → split_once pat s ≡ some (a, b) → s ≡ a ++ (pat ++ b)
unfolding split_once
split_once-append pat String.[] a b h = elim (Option-cases (strip_prefix pat "")) [
  | inl none_of ↦ ground (arith, none_of, h)
  | inr (r, found) ↦
      let (p, q) = same_pair "" r a b (ground (arith, found, h)) in
      strip_prefix-append pat "" r found ∙ rw (sym p, q, nil-append (pat ++ b)) refl
]
split_once-append pat (String.◌∷◌ c s) a b h =
    elim (Option-cases (strip_prefix pat (String.◌∷◌ c s))) [
      | inr (r, found) ↦
          let (p, q) = same_pair "" r a b (ground (arith, found, h)) in
          strip_prefix-append pat (String.◌∷◌ c s) r found
          ∙ rw (sym p, q, nil-append (pat ++ b)) refl
      | inl later ↦ elim (Option-cases (split_once pat s)) [
        | inl none_of ↦ ground (arith, later, none_of, h)
        | inr ((x, y), found) ↦
            let (p, q) = same_pair (String.◌∷◌ c x) y a b (ground (arith, later, found, h)) in
            ap (String.◌∷◌ c) (split_once-append pat s x y found)
            ∙ rw (sym p, q, cons-append c x (pat ++ b)) refl
      ]
    ]

pub rsplit_once-append :
    (p : Char) (s a b : String) → rsplit_once (code p) s ≡ some (a, b) → s ≡ a ++ (String.◌∷◌ p b)
unfolding rsplit_once
rsplit_once-append p String.[] a b h = cc
rsplit_once-append p (String.◌∷◌ c s) a b h = elim (Option-cases (rsplit_once (code p) s)) [
  | inr ((x, y), found) ↦
      let (f, g) = same_pair (String.◌∷◌ c x) y a b (ground (arith, found, h)) in
      ap (String.◌∷◌ c) (rsplit_once-append p s x y found)
      ∙ rw (sym f, g, cons-append c x (String.◌∷◌ p b)) refl
  | inl here ↦ elim (Bool-cases (code c == code p)) [
    | inr other ↦ ground (arith, here, other, h)
    | inl e ↦
        let (f, g) = same_pair "" s a b (ground (arith, here, e, h)) in
        let same : c ≡ p = Char-path c p (ground (arith, e)) in
        rw (sym f, g, same, nil-append (String.◌∷◌ p b)) refl
  ]
]

-- A piece of what follows the first character.
pub IsPiece-tail : (c : Char) (r s : String) → IsPiece r s → IsPiece r (String.◌∷◌ c s)
IsPiece-tail c r s (a, (b, e)) =
    (String.◌∷◌ c a, (b, ap (String.◌∷◌ c) e ∙ sym (cons-append c a (r ++ b))))

trim_start-IsPiece : (s : String) → IsPiece (trim_start s) s
unfolding trim_start
trim_start-IsPiece String.[] = IsPiece-refl ""
trim_start-IsPiece (String.◌∷◌ c s) = elim (Bool-cases (is_whitespace (code c))) [
  | inl e ↦ rw e (IsPiece-tail c (trim_start s) s (trim_start-IsPiece s))
  | inr e ↦ rw e (IsPiece-refl (String.◌∷◌ c s))
]

-- What `trim_end` leaves out stands at the end.
trim_end-prefix : (s : String) → (b : String) × (s ≡ trim_end s ++ b)
unfolding trim_end
trim_end-prefix String.[] = ("", sym (nil-append ""))
trim_end-prefix (String.◌∷◌ c s) =
    elim (Bool-cases (is_nil (trim_end s) && is_whitespace (code c))) [
      | inl e ↦ rw e (String.◌∷◌ c s, sym (nil-append (String.◌∷◌ c s)))
      | inr e ↦
          let (b, f) = trim_end-prefix s in
          rw e (b, ap (String.◌∷◌ c) f ∙ sym (cons-append c (trim_end s) b))
    ]

trim_end-IsPiece : (s : String) → IsPiece (trim_end s) s
trim_end-IsPiece s =
    let (b, e) = trim_end-prefix s in ("", (b, e ∙ sym (nil-append (trim_end s ++ b))))

pub trim-IsPiece : (s : String) → IsPiece (trim s) s
unfolding trim
trim-IsPiece s =
    IsPiece-trans (trim s) (trim_start s) s (trim_end-IsPiece (trim_start s)) (trim_start-IsPiece s)
