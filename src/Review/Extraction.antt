-- ===== src/Review/Extraction.antt =====
-- src/daemon.rs, `extract_json`, and src/orchestrator/review.rs, `extract_json_block`: what is
-- handed out, and where the code panics.
use zeptopm.Base.{
  String, ◌≡◌, ◌≢◌, refl, sym, ap, ◌∙◌, arith, Option, none, some, str_eq, eq→str_eq, split_once,
  rsplit_once, trim, IsPiece, IsPiece-trans, trim-IsPiece, split_once-append, rsplit_once-append,
  Bool-cases, Option-cases, inl, inr,
}
use Prim.Native.String.{◌++◌}
use Prim.Native.Char.{char}
use text.Mathlib.TextLemmas.{append-nil, append_assoc, nil-append, cons-append}
use zeptopm.Review.{Braces, absent, panics, found, fenced, braces, backwards, extract_json}

-- A `}` stands before a `{` and does not touch it.
abbrev pub IsBackwards : String → Type 0
IsBackwards t =
    (p : String) × ((q : String) × ((r : String) × ((t ≡ p ++ ("}" ++ (q ++ ("{" ++ r))))
          × (q ≢ ""))))

IsBackwards-IsPiece : (s t : String) → IsPiece s t → IsBackwards s → IsBackwards t
IsBackwards-IsPiece s t (a, (b, e)) (p, (q, (r, (f, apart)))) =
    (a ++ p, (q, (r ++ b, (rw (e, f) (simp (append_assoc) refl), apart))))

abbrev CutBraces : String → Braces → Type 0
CutBraces text absent = Unit {0}
CutBraces text panics = IsBackwards text
CutBraces text (found s) = IsPiece s text

nil-IsPiece : (t : String) → IsPiece "" t
nil-IsPiece t = ("", (t, sym (nil-append ("" ++ t) ∙ nil-append t)))

fenced-IsPiece : (fence text s : String) → fenced fence text ≡ some s → IsPiece s text
unfolding fenced
fenced-IsPiece fence text s h = elim (Option-cases (split_once fence text)) [
  | inl gone ↦ ground (arith, gone, h)
  | inr ((before, after), opened) ↦ elim (Option-cases (split_once "```" after)) [
    | inl gone ↦ ground (arith, opened, gone, h)
    | inr ((block, rest), closed) ↦
        let e : trim block ≡ s = ground (arith, opened, closed, h) in
        rw (sym e) (
          IsPiece-trans (trim block) block text (trim-IsPiece block) (
            before ++ fence,
            (
              "```" ++ rest,
              split_once-append fence text before after opened
                  ∙ rw (split_once-append "```" after block rest closed) (simp (append_assoc) refl),
            ),
          ))
  ]
]

closing : (s a b : String) → rsplit_once b'}' s ≡ some (a, b) → s ≡ a ++ ("}" ++ b)
closing s a b h =
    rsplit_once-append (char 125 tt) s a b h
    ∙ ap (λ t. a ++ t) (sym (rw (nil-append b) at (cons-append (char 125 tt) "" b)))

backwards-CutBraces :
    (before after : String) → CutBraces (before ++ ("{" ++ after)) (backwards before)
backwards-CutBraces before after = elim (Option-cases (rsplit_once b'}' before)) [
  | inl gone ↦ rw (CutBraces, gone) tt
  | inr ((p, between), last) ↦ elim (Bool-cases (str_eq between "")) [
    | inl e ↦ rw (CutBraces, last, e) (nil-IsPiece (before ++ ("{" ++ after)))
    | inr e ↦
        rw (CutBraces, last, e)
          (
            p,
            (
              between,
              (
                after,
                (
                  rw (closing before p between last) (simp (append_assoc) refl),
                  λ touching. ground (arith, e, eq→str_eq between "" touching),
                ),
              ),
            ),
          )
  ]
]

braces-CutBraces : (text : String) → CutBraces text (braces text)
unfolding braces
braces-CutBraces text = elim (Option-cases (split_once "{" text)) [
  | inl gone ↦ rw (braces, gone) tt
  | inr ((before, after), opened) ↦
      let e = split_once-append "{" text before after opened in
      elim (Option-cases (rsplit_once b'}' after)) [
        | inl gone ↦ rw (braces, opened, gone) (rw (sym e) at (backwards-CutBraces before after))
        | inr ((object, rest), last) ↦
            rw (braces, opened, last)
              (
                before,
                (
                  rest,
                  e ∙ rw (closing after object rest last) (simp (append_assoc, append-nil) refl),
                ),
              )
      ]
]

-- The result for a text: a piece of it, or a panic with the reason for it.
abbrev Cut : String → Option String → Type 0
Cut text none = IsBackwards text
Cut text (some s) = IsPiece s text

-- For every text, either `extract_json` hands out a piece of it, or it panics, and then the text has
-- a `}` before a `{`, with something between the two.
pub extract_json-Cut : (text : String) → Cut text (extract_json text)
unfolding extract_json
extract_json-Cut text =
    let within = λ (s : String) (h : IsPiece s (trim text)).
      IsPiece-trans s (trim text) text h (trim-IsPiece text) in
    elim (Option-cases (fenced "```json" (trim text))) [
      | inr (block, e) ↦
          rw (extract_json, e) (within block (fenced-IsPiece "```json" (trim text) block e))
      | inl a ↦ elim (Option-cases (fenced "```" (trim text))) [
        | inr (block, e) ↦
            rw (extract_json, a, e) (within block (fenced-IsPiece "```" (trim text) block e))
        | inl b ↦ rw (extract_json, a, b) (rest (braces (trim text)) (braces-CutBraces (trim text)))
      ]
    ]
  where
    rest :
        (found_braces : Braces)
        → CutBraces (trim text) found_braces
        → Cut text (elim found_braces [
          | absent ↦ some (trim text)
          | panics ↦ none
          | found object ↦ some object
        ])
    rest absent h = trim-IsPiece text
    rest panics h = IsBackwards-IsPiece (trim text) text (trim-IsPiece text) h
    rest (found object) h = IsPiece-trans object (trim text) text h (trim-IsPiece text)
