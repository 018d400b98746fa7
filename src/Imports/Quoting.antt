-- ===== src/Imports/Quoting.antt =====
-- Values in double quotes.
use himitsu.Prelude.{
  ℕ, ◌≡◌, refl, ap, ◌∙◌, inl, inr, true, false, ◌||◌, [], ◌∷◌, ◌++◌, append_assoc, ◌==◌,
  if◌then◌else◌, Bool-cases, arith,
}
use himitsu.Text.{Text}
use himitsu.Imports.{Scan, closed, prepend, unescaped, scan_quoted}

-- How a character is written between double quotes.
abbrev pub escaped_unit : ℕ → Text
escaped_unit c =
    if c == b'"' || c == b'\\'
    then b'\\' ∷ c ∷ []
    else if c == 10
    then b'\\' ∷ b'n' ∷ []
    else if c == 13
    then b'\\' ∷ b'r' ∷ []
    else c ∷ []

abbrev pub escaped : Text → Text
escaped [] = []
escaped (c ∷ s) = escaped_unit c ++ escaped s

pub scan_plain :
    (c : ℕ) (s : Text)
    → (c == b'\\') ≡ false
    → (c == b'"') ≡ false
    → scan_quoted b'"' (c ∷ s) ≡ prepend (c ∷ []) (scan_quoted b'"' s)
unfolding scan_quoted
scan_plain c [] h k = ground arith
scan_plain c (d ∷ s) h k = ground arith

pub unescaped_special : (c : ℕ) → (c == b'"' || c == b'\\') ≡ true → unescaped b'"' c ≡ c ∷ []
unfolding unescaped
unescaped_special c h = ground arith

scan_unit :
    (c : ℕ) (s value trailing : Text)
    → scan_quoted b'"' s ≡ closed value trailing
    → scan_quoted b'"' (escaped_unit c ++ s) ≡ closed (c ∷ value) trailing
unfolding scan_quoted unescaped
scan_unit c s value trailing h = elim (Bool-cases (c == b'"' || c == b'\\')) [
  | inl special ↦ rw (special, h, unescaped_special c special) refl
  | inr plain ↦ elim (Bool-cases (c == 10)) [
    | inl feed ↦ let same : c ≡ 10 = ground arith in rw (plain, feed, h, same) refl
    | inr other ↦ elim (Bool-cases (c == 13)) [
      | inl return ↦ let same : c ≡ 13 = ground arith in rw (plain, other, return, h, same) refl
      | inr rest ↦
          rw (plain, other, rest)
            (scan_plain c s (ground arith) (ground arith) ∙ ap (λ (r : Scan). prepend (c ∷ []) r) h)
    ]
  ]
]

-- Any value comes back from between double quotes, with what follows the closing quote, if in it a
-- backslash stands before each quote and backslash, and line ends are written as `\n` and `\r`.
pub scan_quoted-escaped :
    (value trailing : Text)
    → scan_quoted b'"' (escaped value ++ b'"' ∷ trailing) ≡ closed value trailing
unfolding scan_quoted
scan_quoted-escaped [] [] = refl
scan_quoted-escaped [] (c ∷ trailing) = refl
scan_quoted-escaped (c ∷ value) trailing =
    rw (append_assoc (escaped_unit c) (escaped value) (b'"' ∷ trailing)) (
      scan_unit c (escaped value ++ b'"' ∷ trailing) value trailing
        (scan_quoted-escaped value trailing))
