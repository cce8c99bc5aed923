-- ===== src/Capsule/Paths.antt =====
-- src/capsule.rs, `translate_guest_event_paths`. A `Path` is compared and cut by its names: repeated
-- separators and the name `.` do not count. What is left of a path after a prefix is written with
-- single separators.
use zeptopm.Base.{
  String, Bool, true, false, not, ◌&&◌, if◌then◌else◌, Option, none, some, List, [], ◌∷◌, filter,
  insert, str_eq, map_option, split, join, path_join, strip_prefix, is_some,
}
use zeptopm.Json.{Json, text, get_str}

abbrev pub is_name : String → Bool
is_name s = not (str_eq s "") && not (str_eq s ".")

-- The names of a path, which `Path::components` yields.
unfoldable pub path_names : String → List String
path_names s = filter is_name (split b'/' s)

abbrev pub is_absolute : String → Bool
is_absolute s = is_some (strip_prefix "/" s)

unfoldable pub strip_names : List String → List String → Option (List String)
strip_names [] ns = some ns
strip_names (b ∷ bs) [] = none
strip_names (b ∷ bs) (n ∷ ns) = let rest = strip_names bs ns in if str_eq b n then rest else none

abbrev same_names : List String → List String → Bool
same_names [] [] = true
same_names (a ∷ as') (b ∷ bs) = str_eq a b && same_names as' bs
same_names _ _ = false

abbrev same_root : String → String → Bool
same_root a b = if is_absolute a then is_absolute b else not (is_absolute b)

-- `==` of two paths.
unfoldable pub path_eq : String → String → Bool
path_eq a b = same_root a b && same_names (path_names a) (path_names b)

-- `Path::strip_prefix`, the prefix first.
unfoldable pub path_strip : String → String → Option String
path_strip base path =
    if same_root base path
    then map_option (join "/") (strip_names (path_names base) (path_names path))
    else none

abbrev pub moved : String → String → String → Json → Json
moved guest_workspace host_workspace path event = elim (path_strip guest_workspace path) [
  | none ↦ event
  | some relative ↦ insert "path" (text (path_join host_workspace relative)) event
]

unfoldable pub translate_guest_event_paths : Json → String → String → Json
translate_guest_event_paths event guest_workspace host_workspace =
    if path_eq guest_workspace host_workspace then event else elim (get_str "path" event) [
      | none ↦ event
      | some path ↦ moved guest_workspace host_workspace path event
    ]
