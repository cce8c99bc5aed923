-- ===== src/Review.antt =====
-- src/orchestrator/review.rs: the decision in a reviewer's text, and `extract_json` of
-- src/daemon.rs. The case conversions of Unicode and the crate `serde_json` are arguments. Slicing
-- a text backwards panics, which is `none` of an outer `Option`.
mod Extraction
mod Tests
use zeptopm.Base.{
  String, Bool, true, false, not, ◌&&◌, ◌||◌, if◌then◌else◌, Option, none, some, List, [], ◌∷◌,
  str_eq, contains, is_some, unwrap_or, format, split_once, rsplit_once, trim, strip_prefix,
}
use zeptopm.Engine.Review.{ReviewDecision, approved, revise, rejected}

-- `ReviewJson`
pub record ReviewJson : Type 0 where
  pub decision : String
  pub feedback : Option String
  pub reason : Option String

pub record Texts : Type 0 where
  pub to_lowercase : String → String
  pub to_uppercase : String → String
  -- `serde_json::from_str::<ReviewJson>` and whether `from_str::<Value>` is `Ok`.
  pub from_str : String → Option ReviewJson
  pub is_json : String → Bool

-- The block between `open` and the next ```, if both are there.
unfoldable pub fenced : String → String → Option String
fenced fence text = elim (split_once fence text) [
  | none ↦ none
  | some (before, after) ↦ elim (split_once "```" after) [
    | none ↦ none
    | some (block, rest) ↦ some (trim block)
  ]
]

-- The text from the first `{` to the last `}`: no such text, a panic, or the text.
pub data Braces : Type 0 where
  absent panics : Braces
  found : String → Braces

-- Where no `}` follows the first `{`: the slice `start..=end` is empty if the last `}` stands just
-- before it, and panics if there is anything between.
abbrev pub backwards : String → Braces
backwards before = elim (rsplit_once b'}' before) [
  | none ↦ absent
  | some (p, between) ↦ if str_eq between "" then found "" else panics
]

unfoldable pub braces : String → Braces
braces text = elim (split_once "{" text) [
  | none ↦ absent
  | some (before, after) ↦ elim (rsplit_once b'}' after) [
    | some (object, rest) ↦ found (format ("{" ∷ object ∷ "}" ∷ []))
    | none ↦ backwards before
  ]
]

abbrev pub if_json : Texts → String → Option String
if_json t candidate = if t.is_json candidate then some candidate else none

unfoldable pub extract_json_block : Texts → String → Option (Option String)
extract_json_block t text =
    let trimmed = trim text in
    elim (fenced "```json" trimmed) [
      | some block ↦ some (some block)
      | none ↦ elim (braces trimmed) [
        | absent ↦ some none
        | panics ↦ none
        | found candidate ↦ some (if_json t candidate)
      ]
    ]

-- `a.or(b).unwrap_or_default()`
abbrev or_empty : Option String → Option String → String
or_empty (some a) b = a
or_empty none b = unwrap_or b ""

unfoldable pub decision_of : Texts → ReviewJson → Option ReviewDecision
decision_of t parsed =
    let word = t.to_lowercase parsed.decision in
    if contains word ("approved" ∷ "approve" ∷ "lgtm" ∷ [])
    then some approved
    else if contains word
        ("revise" ∷ "revision" ∷ "revision_needed" ∷ "needs_revision" ∷ "needs_changes" ∷ [])
    then some (revise (or_empty parsed.feedback parsed.reason))
    else if contains word ("rejected" ∷ "reject" ∷ [])
    then some (rejected (or_empty parsed.reason parsed.feedback))
    else none

abbrev decided : Texts → Option String → Option ReviewDecision
decided t none = none
decided t (some json_str) = elim (t.from_str json_str) [
  | none ↦ none
  | some parsed ↦ decision_of t parsed
]

-- `text.contains(word)`
abbrev pub has : String → String → Bool
has text word = is_some (split_once word text)

unfoldable pub keyword_scan : Texts → String → ReviewDecision
keyword_scan t text =
    let upper = t.to_uppercase text in
    if has upper "REJECTED"
    then rejected text
    else if has upper "REVISE"
        || (has upper "NEEDS REVISION"
            || (has upper "NEEDS CHANGES" || has upper "REVISION NEEDED"))
    then revise text
    else approved

abbrev or_scan : Texts → String → Option ReviewDecision → ReviewDecision
or_scan t text none = keyword_scan t text
or_scan t text (some decision) = decision

unfoldable pub parse_review_decision : Texts → String → Option ReviewDecision
parse_review_decision t text = elim (extract_json_block t text) [
  | none ↦ none
  | some block ↦ some (or_scan t text (decided t block))
]

-- src/daemon.rs, `extract_json`.
unfoldable pub extract_json : String → Option String
extract_json text =
    let trimmed = trim text in
    elim (fenced "```json" trimmed) [
      | some block ↦ some block
      | none ↦ elim (fenced "```" trimmed) [
        | some block ↦ some block
        | none ↦ elim (braces trimmed) [
          | absent ↦ some trimmed
          | panics ↦ none
          | found object ↦ some object
        ]
      ]
    ]
