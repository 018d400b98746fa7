-- ===== src/Text.antt =====
-- The string operations that the packages call: a JavaScript string is its list of UTF-16 code
-- units. Trimming, lower case, equality, and the slug pattern shared by packages/projects,
-- packages/environments and packages/tenancy.
pub mod Fields
pub mod Slug
mod Tests
use Prim.Native.Char.{code}
use Prim.Native.String.{String}
use himitsu.Prelude.{
  ℕ, zero, suc, ◌+◌, ◌/◌, ◌%◌, ◌≡◌, ◌↔◌, Bool, true, false, ◌&&◌, ◌||◌, List, [], ◌∷◌, ◌++◌, ltb,
  leb, ◌==◌, if◌then◌else◌, arith,
}

abbrev pub Text : Type 0
Text = List ℕ

abbrev pub codes : String → Text
codes String.[] = []
codes (String.◌∷◌ c s) = code c ∷ codes s

unfoldable pub text_eq : Text → Text → Bool
text_eq [] [] = true
text_eq (a ∷ s) (b ∷ t) = if a == b then text_eq s t else false
text_eq _ _ = false

pub text_eq_iff : (s t : Text) → (text_eq s t ≡ true) ↔ (s ≡ t)
unfolding text_eq
text_eq_iff [] [] = ground arith
text_eq_iff [] (b ∷ t) = ground arith
text_eq_iff (a ∷ s) [] = ground arith
text_eq_iff (a ∷ s) (b ∷ t) = ground (arith, text_eq_iff s t)

abbrev pub elem_text : Text → List Text → Bool
elem_text s [] = false
elem_text s (t ∷ ts) = text_eq t s || elem_text s ts

-- `new Set(texts).size === texts.length`.
abbrev pub distinct_texts : List Text → Bool
distinct_texts [] = true
distinct_texts (t ∷ ts) = if elem_text t ts then false else distinct_texts ts

abbrev pub between : ℕ → ℕ → ℕ → Bool
between low high c = leb low c && leb c high

-- White space and line terminators of ECMAScript, as `trim` removes them.
unfoldable pub is_space : ℕ → Bool
is_space c =
    between 9 13 c
    || c == 32
    || c == 160
    || c == 0x1680
    || between 0x2000 0x200a c
    || c == 0x2028
    || c == 0x2029
    || c == 0x202f
    || c == 0x205f
    || c == 0x3000
    || c == 0xfeff

unfoldable pub trim_start : Text → Text
trim_start [] = []
trim_start (c ∷ s) = if is_space c then trim_start s else c ∷ s

-- Adds a character before a text whose end is trimmed.
unfoldable pub keep_before : ℕ → Text → Text
keep_before c [] = if is_space c then [] else c ∷ []
keep_before c (d ∷ s) = c ∷ d ∷ s

unfoldable pub trim_end : Text → Text
trim_end [] = []
trim_end (c ∷ s) = keep_before c (trim_end s)

unfoldable pub trim : Text → Text
trim s = trim_end (trim_start s)

-- Lower case of one code unit. Beyond ASCII only the Kelvin sign has an ASCII image; every other
-- code unit is kept, which no caller can tell from its image, since all go on to refuse both.
unfoldable pub lower_unit : ℕ → ℕ
lower_unit c = if between b'A' b'Z' c then c + 32 else if c == 0x212a then b'k' else c

unfoldable pub to_lower : Text → Text
to_lower [] = []
to_lower (c ∷ s) = lower_unit c ∷ to_lower s

unfoldable pub is_slug_unit : ℕ → Bool
is_slug_unit c = between b'a' b'z' c || between b'0' b'9' c

-- `^[a-z0-9]+(?:-[a-z0-9]+)*$`; `inside` holds behind a letter or digit.
unfoldable pub is_slug_from : Bool → Text → Bool
is_slug_from inside [] = inside
is_slug_from inside (c ∷ s) =
    let hyphen = is_slug_from false s in
    if is_slug_unit c then is_slug_from true s else (c == b'-' && inside) && hyphen

unfoldable pub is_slug : Text → Bool
is_slug s = is_slug_from false s

-- The decimal digits of a number, with fuel; a number has fewer digits than it counts.
unfoldable pub decimal_from : ℕ → ℕ → Text
decimal_from zero n = []
decimal_from (suc fuel) n =
    let front = decimal_from fuel (n / 10) in
    if ltb n 10 then (b'0' + n) ∷ [] else front ++ (b'0' + n % 10) ∷ []

-- `String(n)`.
unfoldable pub decimal : ℕ → Text
unfolding decimal_from
decimal n = decimal_from (suc n) n
