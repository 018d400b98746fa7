-- ===== src/Secrets/Export/Quoted.antt =====
-- The quotes of a dotenv export of packages/secrets/src/index.ts, before the scanner of
-- packages/imports/src/index.ts.
use himitsu.Prelude.{
  ℕ, ◌+◌, ◌-◌, ◌*◌, ◌/◌, ◌%◌, ◌<◌, ◌≡◌, refl, ap, ◌∙◌, inl, inr, Bool, true, false, ◌&&◌, ◌||◌, not,
  List, [], ◌∷◌, ◌++◌, append_assoc, all, ltb, leb, ◌==◌, if◌then◌else◌, Bool-cases, arith,
}
use himitsu.Text.{Text, codes, between}
use himitsu.Imports.{Scan, closed, prepend, unescaped, scan_quoted}
use himitsu.Imports.Quoting.{scan_plain, unescaped_special}
use himitsu.Secrets.Utf8.{paired, join, units_of, is_high, is_low, point_of_pair}
use himitsu.Secrets.Utf8.RoundTrip.{IsText}
use himitsu.Secrets.Export.{json_escape, json_points}

-- A code point that `JSON.stringify` writes in a way that the parser reads back: no control character
-- but tabs and line ends, and no lone surrogate.
abbrev pub is_plain : ℕ → Bool
is_plain p = (leb 32 p || p == 9 || p == 10 || p == 13) && not (between 0xd800 0xdfff p)

abbrev pub IsPlain : Text → Type 0
IsPlain s = IsText s × (all is_plain (paired s) ≡ true)

-- One code unit between the quotes.
unfoldable pub unit_text : ℕ → Text
unit_text c =
    if c == b'"' || c == b'\\'
    then b'\\' ∷ c ∷ []
    else if c == 9
    then codes "\\t"
    else if c == 10
    then codes "\\n"
    else if c == 13
    then codes "\\r"
    else c ∷ []

unfoldable pub unit_texts : Text → Text
unfolding unit_text
unit_texts [] = []
unit_texts (c ∷ s) = unit_text c ++ unit_texts s

-- The same of a code point, which may be a lone surrogate.
unfoldable point_text : ℕ → Text
unfolding unit_text
point_text p = if ltb p 0x10000 then unit_text p else units_of p

unfoldable point_texts : List ℕ → Text
unfolding point_text
point_texts [] = []
point_texts (p ∷ ps) = point_text p ++ point_texts ps

point_of_unit : (c : ℕ) → c < 0x10000 → point_text c ≡ unit_text c
unfolding point_text
point_of_unit c h = ground (arith, h)

large_point : (k : ℕ) → point_text (0x10000 + k) ≡ (0xd800 + k / 1024) ∷ (0xdc00 + k % 1024) ∷ []
unfolding point_text units_of
large_point k =
    let large : ltb (0x10000 + k) 0x10000 ≡ false = ground arith in
    let same : 0x10000 + k - 0x10000 ≡ k = omega arith in rw (large, same) refl

pair_text : (c d : ℕ) → is_high c && is_low d ≡ true → point_text (point_of_pair c d) ≡ c ∷ d ∷ []
pair_text c d h =
    let top : 0xd800 + ((c - 0xd800) * 1024 + (d - 0xdc00)) / 1024 ≡ c = ground arith in
    let rest : 0xdc00 + ((c - 0xd800) * 1024 + (d - 0xdc00)) % 1024 ≡ d = ground arith in
    rw (large_point ((c - 0xd800) * 1024 + (d - 0xdc00)), top, rest) refl

unit_of_surrogate : (c : ℕ) → between 0xd800 0xdfff c ≡ true → unit_text c ≡ c ∷ []
unfolding unit_text
unit_of_surrogate c h = ground (arith, h)

join_text :
    (c : ℕ) (ps : List ℕ) → c < 0x10000 → point_texts (join c ps) ≡ unit_text c ++ point_texts ps
unfolding point_texts
join_text c [] h = ap (λ (s : Text). s ++ []) (point_of_unit c h)
join_text c (d ∷ ps) h = elim (Bool-cases (is_high c && is_low d)) [
  | inr apart ↦
      rw apart (ap (λ (s : Text). s ++ (point_text d ++ point_texts ps)) (point_of_unit c h))
  | inl pair ↦
      let first = unit_of_surrogate c (ground arith) in
      let second : point_text d ≡ d ∷ [] =
        point_of_unit d (ground arith) ∙ unit_of_surrogate d (ground arith) in
      rw (pair, pair_text c d pair, first, second) refl
]

paired_texts : (s : Text) → IsText s → point_texts (paired s) ≡ unit_texts s
unfolding paired unit_texts point_texts
paired_texts [] h = refl
paired_texts (c ∷ s) (h, hs) =
    join_text c (paired s) h ∙ ap (λ (t : Text). unit_text c ++ t) (paired_texts s hs)

plain_text : (p : ℕ) → is_plain p ≡ true → json_escape p ≡ point_text p
unfolding json_escape point_text unit_text units_of
plain_text p h = ground arith

plain_texts : (ps : List ℕ) → all is_plain ps ≡ true → json_points ps ≡ point_texts ps
unfolding json_points point_texts
plain_texts [] h = refl
plain_texts (p ∷ ps) h =
    let this = plain_text p (ground arith) in
    let rest = plain_texts ps (ground arith) in rw (this, rest) refl

pub json_points-paired : (s : Text) → IsPlain s → json_points (paired s) ≡ unit_texts s
json_points-paired s (text, plain) = plain_texts (paired s) plain ∙ paired_texts s text

scan_unit :
    (c : ℕ) (s value trailing : Text)
    → scan_quoted b'"' s ≡ closed value trailing
    → scan_quoted b'"' (unit_text c ++ s) ≡ closed (c ∷ value) trailing
unfolding scan_quoted unescaped unit_text
scan_unit c s value trailing h = elim (Bool-cases (c == b'"' || c == b'\\')) [
  | inl special ↦ rw (special, h, unescaped_special c special) refl
  | inr plain ↦ elim (Bool-cases (c == 9)) [
    | inl tab ↦ let same : c ≡ 9 = ground arith in rw (plain, tab, h, same) refl
    | inr no_tab ↦ elim (Bool-cases (c == 10)) [
      | inl feed ↦ let same : c ≡ 10 = ground arith in rw (plain, no_tab, feed, h, same) refl
      | inr no_feed ↦ elim (Bool-cases (c == 13)) [
        | inl return ↦
            let same : c ≡ 13 = ground arith in rw (plain, no_tab, no_feed, return, h, same) refl
        | inr rest ↦
            rw (plain, no_tab, no_feed, rest)
              (scan_plain c s (ground arith) (ground arith)
                ∙ ap (λ (r : Scan). prepend (c ∷ []) r) h)
      ]
    ]
  ]
]

pub scan_quoted-unit_texts :
    (s trailing : Text) → scan_quoted b'"' (unit_texts s ++ b'"' ∷ trailing) ≡ closed s trailing
unfolding scan_quoted unit_texts
scan_quoted-unit_texts [] [] = refl
scan_quoted-unit_texts [] (c ∷ trailing) = refl
scan_quoted-unit_texts (c ∷ s) trailing =
    rw (append_assoc (unit_text c) (unit_texts s) (b'"' ∷ trailing))
      (scan_unit c (unit_texts s ++ b'"' ∷ trailing) s trailing (scan_quoted-unit_texts s trailing))

-- No line ends between the quotes.
abbrev pub is_inline : ℕ → Bool
is_inline c = not (c == 10) && not (c == 13)

pub all-append :
    (s t : Text) → all is_inline s ≡ true → all is_inline t ≡ true → all is_inline (s ++ t) ≡ true
all-append [] t h k = k
all-append (c ∷ s) t h k = let rest = all-append s t (ground arith) k in ground (arith, rest)

unit_text_inline : (c : ℕ) → all is_inline (unit_text c) ≡ true
unfolding unit_text
unit_text_inline c = ground arith

pub unit_texts_inline : (s : Text) → all is_inline (unit_texts s) ≡ true
unfolding unit_texts
unit_texts_inline [] = refl
unit_texts_inline (c ∷ s) =
    all-append (unit_text c) (unit_texts s) (unit_text_inline c) (unit_texts_inline s)
