-- ===== src/Review/Tests.antt =====
-- src/daemon.rs, `extract_json`: the theorem at a text on which the code panics.
use zeptopm.Base.{◌≡◌, refl, none}
use zeptopm.Review.{extract_json, fenced, braces}
use zeptopm.Review.Extraction.{IsBackwards, extract_json-Cut}
use zeptopm.Base.{trim, split_once, rsplit_once, strip_prefix, trim_start, trim_end, str_eq}

it_panics : extract_json "} x {" ≡ none
unfolding extract_json fenced braces trim split_once rsplit_once strip_prefix trim_start trim_end
    str_eq
it_panics = refl

extract_json-Cut_example : IsBackwards "} x {"
unfolding extract_json fenced braces trim split_once rsplit_once strip_prefix trim_start trim_end
    str_eq
extract_json-Cut_example = extract_json-Cut "} x {"
