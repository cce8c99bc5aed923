-- ===== src/Server/Delegation.antt =====
-- src/server.rs, `parse_delegations`: what a delegation is made of.
use zeptopm.Base.{
  String, ◌≡◌, ◌≢◌, refl, sym, ap, subst, ◌∙◌, arith, true, not, ◌&&◌, ◌==◌, Option, some, List, [],
  ◌∷◌, filter_map, str_eq, eq→str_eq, lines, cons_first, ends_here, trim, trim_start_matches,
  strip_prefix, split_once, IsPiece, IsPiece-refl, IsPiece-trans, IsPiece-tail, trim-IsPiece,
  strip_prefix-append, split_once-append, Bool-cases, Option-cases, inl, inr,
}
use Prim.Native.Char.{Char, code}
use Prim.Native.String.{◌++◌}
use text.Mathlib.TextLemmas.{append-nil, append_assoc, nil-append, cons-append}
use zeptopm.Server.Orchestrate.{delegation_of, parse_delegations}

abbrev Pieces : List String → String → Type 0
Pieces [] s = Unit {0}
Pieces (l ∷ ls) s = IsPiece l s × Pieces ls s

abbrev StartsWith : String → String → Type 0
StartsWith l s = (b : String) × (s ≡ l ++ b)

-- The first line starts the text.
abbrev AreLines : List String → String → Type 0
AreLines [] s = Unit {0}
AreLines (l ∷ ls) s = StartsWith l s × Pieces ls s

start-IsPiece : (l s : String) → StartsWith l s → IsPiece l s
start-IsPiece l s (b, e) = ("", (b, e ∙ sym (nil-append (l ++ b))))

Pieces-tail : (c : Char) (ls : List String) (s : String) → Pieces ls s → Pieces ls (String.◌∷◌ c s)
Pieces-tail c [] s h = tt
Pieces-tail c (l ∷ ls) s h = (IsPiece-tail c l s h.0, Pieces-tail c ls s h.1)

AreLines-Pieces : (ls : List String) (s : String) → AreLines ls s → Pieces ls s
AreLines-Pieces [] s h = tt
AreLines-Pieces (l ∷ ls) s h = (start-IsPiece l s h.0, h.1)

nil-StartsWith : (s : String) → StartsWith "" s
nil-StartsWith s = (s, sym (nil-append s))

first-AreLines :
    (c : Char) (ls : List String) (s : String)
    → AreLines ls s
    → AreLines (cons_first c ls) (String.◌∷◌ c s)
first-AreLines c [] s h = ((s, sym (cons-append c "" s ∙ ap (String.◌∷◌ c) (nil-append s))), tt)
first-AreLines c (l ∷ ls) s ((b, e), h) =
    ((b, ap (String.◌∷◌ c) e ∙ sym (cons-append c l b)), Pieces-tail c ls s h)

after-return :
    (c : Char) (s : String)
    → ends_here s ≡ true
    → AreLines (lines s) s
    → AreLines (lines s) (String.◌∷◌ c s)
unfolding lines
after-return c String.[] e h = cc
after-return c (String.◌∷◌ d s) e h =
    let broken : lines (String.◌∷◌ d s) ≡ "" ∷ lines s = rw e refl in
    let h' = subst (λ ls. AreLines ls (String.◌∷◌ d s)) broken h in
    subst (λ ls. AreLines ls (String.◌∷◌ c (String.◌∷◌ d s))) (sym broken)
      (nil-StartsWith _, Pieces-tail c (lines s) (String.◌∷◌ d s) h'.1)

lines-AreLines : (s : String) → AreLines (lines s) s
unfolding lines
lines-AreLines String.[] = tt
lines-AreLines (String.◌∷◌ c s) = elim (Bool-cases (code c == 10)) [
  | inl e ↦
      rw e (
        nil-StartsWith _,
        Pieces-tail c (lines s) s (AreLines-Pieces (lines s) s (lines-AreLines s)),
      )
  | inr f ↦ elim (Bool-cases (code c == 13 && ends_here s)) [
    | inl e ↦ rw (f, e) (after-return c s (ground (arith, e)) (lines-AreLines s))
    | inr e ↦ rw (f, e) (first-AreLines c (lines s) s (lines-AreLines s))
  ]
]

start_matches-IsPiece : (pat s : String) → IsPiece (trim_start_matches pat s) s
unfolding trim_start_matches
start_matches-IsPiece pat String.[] = IsPiece-refl ""
start_matches-IsPiece pat (String.◌∷◌ c s) =
    elim (Option-cases (strip_prefix pat (String.◌∷◌ c s))) [
      | inl gone ↦ rw (trim_start_matches, gone) (IsPiece-refl (String.◌∷◌ c s))
      | inr (after, found) ↦
          rw (trim_start_matches, found)
            (IsPiece-tail c (trim_start_matches pat s) s (start_matches-IsPiece pat s))
    ]

-- A name and a message that stand in the text and are not empty.
abbrev pub IsCut : String → String × String → Type 0
IsCut t (a, m) = (IsPiece a t × IsPiece m t) × ((a ≢ "") × (m ≢ ""))

abbrev pub AreCut : String → List (String × String) → Type 0
AreCut t [] = Unit {0}
AreCut t (d ∷ ds) = IsCut t d × AreCut t ds

delegation_of-IsCut :
    (line : String) (d : String × String) → delegation_of line ≡ some d → IsCut line d
unfolding delegation_of
delegation_of-IsCut line (a, m) h = elim (Option-cases (strip_prefix "@delegate(" (trim line))) [
  | inl gone ↦ ground (arith, gone, h)
  | inr (rest, found) ↦ elim (Option-cases (split_once ")" rest)) [
    | inl gone ↦ ground (arith, found, gone, h)
    | inr ((name, after), cut) ↦
        let message = trim (trim_start_matches ":" after) in
        elim (Bool-cases (not (str_eq name "") && not (str_eq message ""))) [
          | inr bad ↦ ground (arith, found, cut, bad, h)
          | inl good ↦
              let same : Path (Option (String × String)) (some (name, message)) (some (a, m)) =
                ground (arith, found, cut, good, h) in
              let p : name ≡ a = cc in
              let q : message ≡ m = cc in
              let e = split_once-append ")" rest name after cut in
              let whole = strip_prefix-append "@delegate(" (trim line) rest found in
              let inside : IsPiece rest line =
                IsPiece-trans rest (trim line) line
                  ("@delegate(", ("", whole ∙ ap (λ t. "@delegate(" ++ t) (sym (append-nil rest))))
                  (trim-IsPiece line) in
              let tail : IsPiece after rest =
                (name ++ ")", ("", rw (append-nil after, append_assoc name ")" after) e)) in
              rw⁻¹ (p, q)
                (
                  (
                    IsPiece-trans name rest line
                        ("", (")" ++ after, e ∙ sym (nil-append (name ++ (")" ++ after))))) inside,
                    IsPiece-trans message after line
                        (IsPiece-trans message (trim_start_matches ":" after) after
                          (trim-IsPiece (trim_start_matches ":" after))
                          (start_matches-IsPiece ":" after))
                        (IsPiece-trans after rest line tail inside),
                  ),
                  (
                    λ z. ground (arith, good, eq→str_eq name "" z),
                    λ z. ground (arith, good, eq→str_eq message "" z),
                  ),
                )
        ]
  ]
]

all-AreCut : (t : String) (ls : List String) → Pieces ls t → AreCut t (filter_map delegation_of ls)
all-AreCut t [] h = tt
all-AreCut t (l ∷ ls) h = elim (Option-cases (delegation_of l)) [
  | inl gone ↦
      let e : filter_map delegation_of (l ∷ ls) ≡ filter_map delegation_of ls =
        rw (filter_map, gone) refl in
      subst (AreCut t) (sym e) (all-AreCut t ls h.1)
  | inr ((a, m), found) ↦
      let ((p, q), full) = delegation_of-IsCut l (a, m) found in
      let e : filter_map delegation_of (l ∷ ls) ≡ (a, m) ∷ filter_map delegation_of ls =
        rw (filter_map, found) refl in
      subst (AreCut t) (sym e)
        (((IsPiece-trans a l t p h.0, IsPiece-trans m l t q h.0), full), all-AreCut t ls h.1)
]

-- Every delegation that is read from an answer has a name and a message that both stand in the
-- answer, and neither is empty.
pub parse_delegations-AreCut : (text : String) → AreCut text (parse_delegations text)
unfolding parse_delegations
parse_delegations-AreCut text =
    all-AreCut text (lines text) (AreLines-Pieces (lines text) text (lines-AreLines text))
