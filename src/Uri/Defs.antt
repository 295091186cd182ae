-- ===== src/Uri/Defs.antt =====
-- `parse_knarr_uri`, with its regular expressions written out. As in Python's `re`, `.` is any
-- character but a newline, and `$` matches at the end and before a newline at the end.
use knarr.Prelude.{
  ℕ, Bool, true, false, not, ◌&&◌, ◌||◌, Option, none, some, [], ◌∷◌, Text, codes, leb, ◌==◌,
  if◌then◌else◌, length,
}

-- the longest start of a text with the test, and what follows it
unfoldable pub span : (ℕ → Bool) → Text → Text × Text
span p [] = ([], [])
span p (c ∷ t) = elim (p c) [ true ↦ (c ∷ (span p t).0, (span p t).1) | false ↦ ([], c ∷ t) ]

abbrev pub newline : ℕ
newline = 10

-- `$`
unfoldable pub match_end : Text → Bool
match_end [] = true
match_end (c ∷ []) = c == newline
match_end (c ∷ d ∷ t) = false

unfoldable pub strip_prefix : Text → Text → Option Text
strip_prefix [] t = some t
strip_prefix (c ∷ p) [] = none
strip_prefix (c ∷ p) (d ∷ t) = elim (c == d) [ true ↦ strip_prefix p t | false ↦ none ]

abbrev pub not_slash : ℕ → Bool
not_slash c = not (c == b'/')

abbrev pub not_newline : ℕ → Bool
not_newline c = not (c == newline)

abbrev pub is_small : ℕ → Bool
is_small c = leb b'a' c && leb c b'z'

abbrev pub is_hex : ℕ → Bool
is_hex c = (leb b'a' c && leb c b'f') || (leb b'0' c && leb c b'9')

-- `PLUGIN_SELECTORS`
abbrev pub is_selector : ℕ → Bool
is_selector c =
    (c == b's')
    || (c == b'p')
    || (c == b'c')
    || (c == b'm')
    || (c == b'k')
    || (c == b'g')
    || (c == b'o')

abbrev pub scheme : Text
scheme = codes "knarr://"

-- the groups after the authority
unfoldable pub match_path : Text → Text → Option (Text × ℕ × Text)
match_path authority (a ∷ selector ∷ b ∷ rest) =
    let line = span not_newline rest in
    if (a == b'/') && is_small selector && (b == b'/') && match_end line.1
    then some (authority, selector, line.0)
    else none
match_path authority path = none

-- `_URI_RE.match`, with its three groups
unfoldable pub match_uri : Text → Option (Text × ℕ × Text)
match_uri uri = elim (strip_prefix scheme uri) [
  | none ↦ none
  | some rest ↦ match_path (span not_slash rest).0 (span not_slash rest).1
]

-- `re.match(r'^[a-f0-9]{1,64}$', authority)`
unfoldable pub match_hex : Text → Bool
match_hex authority =
    let hex = span is_hex authority in
    leb 1 (length hex.0) && leb (length hex.0) 64 && match_end hex.1

-- `".." in resource`
unfoldable pub has_dots : Text → Bool
has_dots [] = false
has_dots (c ∷ []) = false
has_dots (c ∷ d ∷ t) = if (c == b'.') && (d == b'.') then true else has_dots (d ∷ t)

abbrev pub invalid : Text × Text × Text
invalid = ([], [], [])

abbrev pub is_empty : Text → Bool
is_empty [] = true
is_empty (c ∷ t) = false

-- the checks of the groups
unfoldable pub check : Text → ℕ → Text → Text × Text × Text
check authority selector resource =
    if not (is_selector selector)
    then invalid
    else if not (is_empty authority) && not (match_hex authority)
    then invalid
    else if has_dots resource || not (leb (length resource) 1024)
    then invalid
    else (authority, selector ∷ [], resource)

-- `none` is a value that is not a string.
unfoldable pub parse_knarr_uri : Option Text → Text × Text × Text
parse_knarr_uri none = invalid
parse_knarr_uri (some []) = invalid
parse_knarr_uri (some (c ∷ uri)) = elim (match_uri (c ∷ uri)) [
  | none ↦ invalid
  | some (authority, selector, resource) ↦ check authority selector resource
]
