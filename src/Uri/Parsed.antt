-- ===== src/Uri/Parsed.antt =====
-- What the result of the parser says of the text.
use mathlib.Core.Option.{some-injective}
use knarr.Prelude.{
  ℕ, ◌≤◌, ◌≡◌, ◌⊎◌, refl, ap, sym, ◌∙◌, true, false, not, ◌&&◌, ◌||◌, none, some, [], ◌∷◌, ◌++◌,
  Text, leb, ◌==◌, length, arith, Bool-cases, inl, inr, Option-cases, append_assoc,
}
use knarr.Uri.Defs.{
  span, match_end, strip_prefix, not_slash, not_newline, is_small, is_selector, scheme, match_path,
  match_uri, match_hex, has_dots, invalid, is_empty, check, parse_knarr_uri,
}
use knarr.Uri.Spans.{Holds, span-split, span-Holds, match_end_iff, strip_prefix-some}
use knarr.Uri.RoundTrip.{print, IsResource, IsEnd, IsAccepted, match_hex-IsAccepted}

match_path-some :
    (authority path a r : Text) (s : ℕ)
    → match_path authority path ≡ some (a, s, r)
    → (end : Text) × (a ≡ authority)
      × (path ≡ b'/' ∷ s ∷ b'/' ∷ r ++ end)
      × Holds not_newline r
      × IsEnd end
unfolding match_path
match_path-some authority [] a r s e = absurd (ground arith)
match_path-some authority (x ∷ []) a r s e = absurd (ground arith)
match_path-some authority (x ∷ y ∷ []) a r s e = absurd (ground arith)
match_path-some authority (x ∷ y ∷ z ∷ rest) a r s e =
    let line = span not_newline rest in
    let test = (x == b'/') && is_small y && (z == b'/') && match_end line.1 in
    elim (Bool-cases test) [
      | inr fails ↦
          let f : none ≡ some (a, s, r) = rw (fails, match_path) at e in absurd (ground arith)
      | inl passes ↦
          let f : some (authority, y, line.0) ≡ some (a, s, r) = rw (passes, match_path) at e in
          let g = some-injective (authority, y, line.0) (a, s, r) f in
          let r_eq : r ≡ line.0 = ap (λ p. p.2) (sym g) in
          let s_eq : s ≡ y = ap (λ p. p.1) (sym g) in
          let slash_x : x ≡ b'/' = ground arith in
          let slash_z : z ≡ b'/' = ground arith in
          (
            line.1,
            sym (ap (λ p. p.0) g),
            rw (slash_x, slash_z, r_eq, s_eq, span-split not_newline rest) refl,
            rw r_eq (span-Holds not_newline rest),
            match_end_iff line.1 (ground arith),
          )
    ]

match_uri-some :
    (uri a r : Text) (s : ℕ)
    → match_uri uri ≡ some (a, s, r)
    → (end : Text) × (uri ≡ print a s r ++ end) × Holds not_newline r × IsEnd end
unfolding match_uri print
match_uri-some uri a r s e = elim (Option-cases (strip_prefix scheme uri)) [
  | inl miss ↦ let f : none ≡ some (a, s, r) = rw (miss, match_uri) at e in absurd (ground arith)
  | inr (rest, hit) ↦
      let f : match_path (span not_slash rest).0 (span not_slash rest).1 ≡ some (a, s, r) =
        rw (hit, match_uri) at e in
      let (end, same, path, line, ends) =
        match_path-some (span not_slash rest).0 (span not_slash rest).1 a r s f in
      let split : rest ≡ a ++ (b'/' ∷ s ∷ b'/' ∷ (r ++ end)) =
        sym (span-split not_slash rest) ∙ rw (same, path) refl in
      (
        end,
        strip_prefix-some scheme uri rest hit
            ∙ ap (λ t. scheme ++ t) (split ∙ sym (append_assoc a (b'/' ∷ s ∷ b'/' ∷ r) end)),
        line,
        ends,
      )
]

-- what the checks let through
check-cases :
    (a r : Text) (s : ℕ)
    → (check a s r ≡ invalid)
      ⊎ ((check a s r ≡ (a, s ∷ [], r))
          × IsAccepted a
          × (is_selector s ≡ true)
          × (has_dots r ≡ false)
          × (length r ≤ 1024))
unfolding check
check-cases a r s = elim (Bool-cases (is_selector s)) [
  | inr other ↦ inl (rw (other, check) refl)
  | inl known ↦ elim (Bool-cases (not (is_empty a) && not (match_hex a))) [
    | inl refused ↦ inl (rw (known, refused, check) refl)
    | inr accepted ↦ elim (Bool-cases (has_dots r || not (leb (length r) 1024))) [
      | inl refused ↦ inl (rw (known, accepted, refused, check) refl)
      | inr fits ↦ inr (
        rw (known, accepted, fits, check) refl,
        accepts a accepted,
        known,
        ground arith,
        ground arith,
      )
    ]
  ]
]
  where
    accepts : (t : Text) → (not (is_empty t) && not (match_hex t)) ≡ false → IsAccepted t
    accepts [] h = inl refl
    accepts (c ∷ t) h = match_hex-IsAccepted (c ∷ t) (ground arith)

-- Whatever text is given, the result is three empty texts, or the text is an address printed from
-- accepted parts, maybe with a newline behind it, and the result is these parts.
pub parse_knarr_uri-print_or_invalid :
    (uri : Text)
    → (parse_knarr_uri (some uri) ≡ invalid)
      ⊎ ((authority : Text) × (selector : ℕ) × (resource end : Text) × (parse_knarr_uri (some uri)
            ≡ (authority, selector ∷ [], resource))
          × (uri ≡ print authority selector resource ++ end)
          × IsAccepted authority
          × (is_selector selector ≡ true)
          × IsResource resource
          × IsEnd end)
unfolding parse_knarr_uri
parse_knarr_uri-print_or_invalid [] = inl refl
parse_knarr_uri-print_or_invalid (c ∷ uri) = elim (Option-cases (match_uri (c ∷ uri))) [
  | inl miss ↦ inl (rw (miss, parse_knarr_uri) refl)
  | inr ((a, s, r), hit) ↦
      let (end, shape, line, ends) = match_uri-some (c ∷ uri) a r s hit in
      elim (check-cases a r s) [
        | inl refused ↦ inl (rw (hit, parse_knarr_uri) refused)
        | inr (passed, accepted, known, dots, short) ↦ inr (
          a,
          s,
          r,
          end,
          rw (hit, parse_knarr_uri) passed,
          shape,
          accepted,
          known,
          (line, dots, short),
          ends,
        )
      ]
]
