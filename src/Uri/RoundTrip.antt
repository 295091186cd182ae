-- ===== src/Uri/RoundTrip.antt =====
-- The addresses that are parsed, and their parts.
use knarr.Prelude.{
  ℕ, ◌≤◌, ◌≡◌, ◌⊎◌, refl, ap, sym, true, false, not, ◌&&◌, some, [], ◌∷◌, ◌++◌, Text, leb, length,
  arith, inl, inr, append_assoc,
}
use knarr.Uri.Defs.{
  span, newline, match_end, not_slash, not_newline, is_small, is_hex, is_selector, scheme,
  match_path, match_uri, match_hex, has_dots, is_empty, check, parse_knarr_uri,
}
use knarr.Uri.Spans.{
  Holds, Stops, span-split, span-Holds, span-append, match_end_iff, strip_prefix-append,
}

-- `knarr://authority/selector/resource`
unfoldable pub print : Text → ℕ → Text → Text
print authority selector resource = scheme ++ authority ++ b'/' ∷ selector ∷ b'/' ∷ resource

abbrev pub IsResource : Text → Type 0
IsResource t = Holds not_newline t × (has_dots t ≡ false) × (length t ≤ 1024)

selector-is_small : (c : ℕ) → is_selector c ≡ true → is_small c ≡ true
selector-is_small c h = ground arith

hex-not_slash : (t : Text) → Holds is_hex t → Holds not_slash t
hex-not_slash [] h = tt
hex-not_slash (c ∷ t) h = (ground (arith, h.0), hex-not_slash t h.1)

-- a text that is printed, with an end that `$` accepts
match_uri-print :
    (authority : Text) (selector : ℕ) (resource end : Text)
    → Holds not_slash authority
    → is_small selector ≡ true
    → Holds not_newline resource
    → (end ≡ []) ⊎ (end ≡ newline ∷ [])
    → match_uri (print authority selector resource ++ end) ≡ some (authority, selector, resource)
unfolding match_uri print
match_uri-print authority selector resource end h k l e =
    let path = b'/' ∷ selector ∷ b'/' ∷ resource ++ end in
    let shape : print authority selector resource ++ end ≡ scheme ++ (authority ++ path) =
      ap (λ t. scheme ++ t) (append_assoc authority (b'/' ∷ selector ∷ b'/' ∷ resource) end) in
    let stop : Stops not_newline end = ground (arith, e) in
    let ends : match_end end ≡ true = unfold match_end in ground (arith, e) in
    rw (shape, strip_prefix-append scheme (authority ++ path), match_uri)
      (rw (span-append not_slash authority path h refl) (
        unfold match_path in
        rw (span-append not_newline resource end l stop, k, ends, match_path) refl))

-- nothing, or a newline
abbrev pub IsEnd : Text → Type 0
IsEnd t = (t ≡ []) ⊎ (t ≡ newline ∷ [])

-- What the test of the authority accepts: nothing, or 1 to 64 digits and maybe a newline.
abbrev pub IsAccepted : Text → Type 0
IsAccepted t =
    (t ≡ [])
    ⊎ ((hex end : Text) × (t ≡ hex ++ end)
        × Holds is_hex hex
        × (1 ≤ length hex)
        × (length hex ≤ 64)
        × IsEnd end)

match_hex-append :
    (hex end : Text)
    → Holds is_hex hex
    → 1 ≤ length hex
    → length hex ≤ 64
    → IsEnd end
    → match_hex (hex ++ end) ≡ true
unfolding match_hex
match_hex-append hex end h k l e =
    let stop : Stops is_hex end = ground (arith, e) in
    let ends : match_end end ≡ true = unfold match_end in ground (arith, e) in
    rw (span-append is_hex hex end h stop, ends) (ground arith)

pub match_hex-IsAccepted : (t : Text) → match_hex t ≡ true → IsAccepted t
unfolding match_hex
match_hex-IsAccepted t h = inr (
  (span is_hex t).0,
  (span is_hex t).1,
  sym (span-split is_hex t),
  span-Holds is_hex t,
  ground arith,
  ground arith,
  match_end_iff (span is_hex t).1 (ground arith),
)

IsAccepted-checked : (t : Text) → IsAccepted t → (not (is_empty t) && not (match_hex t)) ≡ false
IsAccepted-checked t (inl empty) = rw empty refl
IsAccepted-checked t (inr (hex, end, e, h, k, l, f)) =
    let matched = match_hex-append hex end h k l f in rw e (ground arith)

newline-not_slash : (hex end : Text) → Holds is_hex hex → IsEnd end → Holds not_slash (hex ++ end)
newline-not_slash [] end h e = ground (arith, e)
newline-not_slash (c ∷ hex) end h e = (ground (arith, h.0), newline-not_slash hex end h.1 e)

IsAccepted-not_slash : (t : Text) → IsAccepted t → Holds not_slash t
IsAccepted-not_slash t (inl empty) = rw empty tt
IsAccepted-not_slash t (inr (hex, end, e, h, k, l, f)) = rw e (newline-not_slash hex end h f)

-- An address with accepted parts, and maybe a newline behind it, is parsed to these parts: an
-- authority that is empty or 1 to 64 hexadecimal digits and maybe a newline, a selector, and a
-- resource of at most 1024 characters without a newline or two dots in a row.
pub parse_knarr_uri-print :
    (authority : Text) (selector : ℕ) (resource end : Text)
    → IsAccepted authority
    → is_selector selector ≡ true
    → IsResource resource
    → IsEnd end
    → parse_knarr_uri (some (print authority selector resource ++ end))
      ≡ (authority, selector ∷ [], resource)
unfolding parse_knarr_uri check print
parse_knarr_uri-print authority selector resource end a s (line, dots, short) e =
    let m : match_uri (print authority selector resource ++ end)
        ≡ some (authority, selector, resource) =
      match_uri-print authority selector resource end (IsAccepted-not_slash authority a)
        (selector-is_small selector s) line e in
    let accepted = IsAccepted-checked authority a in
    let fits : leb (length resource) 1024 ≡ true = ground arith in
    rw (m, s, accepted, dots, fits, parse_knarr_uri) refl
