-- ===== src/Uri/Tests.antt =====
-- Addresses as they are written.
use knarr.Prelude.{ℕ, ◌≡◌, refl, true, ◌⊎◌, some, [], ◌∷◌, ◌++◌, Text, codes, arith, inr}
use knarr.Uri.Defs
use knarr.Uri.Defs.{parse_knarr_uri, is_hex, not_newline, invalid, is_selector}
use knarr.Uri.Parsed.{parse_knarr_uri-print_or_invalid}
use knarr.Uri.RoundTrip.{parse_knarr_uri-print, print, IsAccepted, IsResource, IsEnd}

program : Unit {0}
unfolding Defs.span Defs.match_end Defs.strip_prefix Defs.match_path Defs.match_uri Defs.match_hex
    Defs.has_dots Defs.check parse_knarr_uri print
program = tt

skill :
    parse_knarr_uri (some (codes "knarr:///s/llm/chat@1.0")) ≡ ([], codes "s", codes "llm/chat@1.0")
unfolding program
skill = refl

two_dots : parse_knarr_uri (some (codes "knarr:///s/../etc")) ≡ invalid
unfolding program
two_dots = refl

-- a newline behind the authority
authority : Text
authority = codes "beef" ++ 10 ∷ []

parse_knarr_uri-print_example :
    parse_knarr_uri (some (print authority b'p' (codes "catalog") ++ 10 ∷ []))
    ≡ (authority, b'p' ∷ [], codes "catalog")
unfolding authority
parse_knarr_uri-print_example =
    parse_knarr_uri-print authority b'p' (codes "catalog") (10 ∷ [])
      (inr (
        codes "beef",
        10 ∷ [],
        refl,
        (refl, (refl, (refl, (refl, tt)))),
        omega arith,
        omega arith,
        inr refl,
      ))
      refl
      (
        (refl, (refl, (refl, (refl, (refl, (refl, (refl, tt))))))),
        unfold Defs.has_dots in refl,
        omega arith,
      )
      (inr refl)

parse_knarr_uri-print_or_invalid_example :
    (parse_knarr_uri (some (codes "knarr:///s/x")) ≡ invalid)
    ⊎ ((authority : Text) × (selector : ℕ) × (resource end : Text) × (parse_knarr_uri
            (some (codes "knarr:///s/x"))
          ≡ (authority, selector ∷ [], resource))
        × (codes "knarr:///s/x" ≡ print authority selector resource ++ end)
        × IsAccepted authority
        × (is_selector selector ≡ true)
        × IsResource resource
        × IsEnd end)
parse_knarr_uri-print_or_invalid_example = parse_knarr_uri-print_or_invalid (codes "knarr:///s/x")
