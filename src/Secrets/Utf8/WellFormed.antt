-- ===== src/Secrets/Utf8/WellFormed.antt =====
-- Replacing lone surrogates.
use himitsu.Prelude.{
  ℕ, suc, ◌+◌, ◌-◌, ◌/◌, ◌%◌, ◌<◌, ◌≡◌, refl, ap, ◌∙◌, true, false, ◌&&◌, List, [], ◌∷◌, ◌++◌, map,
  All, ltb, Bool-cases, inl, inr, arith,
}
use himitsu.Text.{Text}
use himitsu.Secrets.Utf8.{
  is_high, is_low, point_of_pair, scalar_of, join, paired, encode_points, utf8, units_of, units,
  to_well_formed,
}
use himitsu.Secrets.Utf8.RoundTrip.{IsScalar, IsText, scalars, paired-small}

join_plain : (p : ℕ) (rest : List ℕ) → is_high p ≡ false → join p rest ≡ p ∷ rest
join_plain p [] h = refl
join_plain p (d ∷ rest) h = ground arith

high_of : ℕ → ℕ
high_of p = 0xd800 + (p - 0x10000) / 1024

low_of : ℕ → ℕ
low_of p = 0xdc00 + (p - 0x10000) % 1024

pair_back : (p : ℕ) → 0x10000 < suc p → p < 0x110000 → point_of_pair (high_of p) (low_of p) ≡ p
unfolding high_of low_of
pair_back p low high = omega arith

is_pair : (p : ℕ) → 0x10000 < suc p → p < 0x110000 → is_high (high_of p) && is_low (low_of p) ≡ true
unfolding high_of low_of
is_pair p low high = ground arith

low_is_not_high : (p : ℕ) → 0x10000 < suc p → p < 0x110000 → is_high (low_of p) ≡ false
unfolding low_of
low_is_not_high p low high = ground arith

joined :
    (c d : ℕ) (rest : List ℕ)
    → is_high c && is_low d ≡ true
    → join c (d ∷ rest) ≡ point_of_pair c d ∷ rest
joined c d rest h = rw h refl

join_pair :
    (p : ℕ) (rest : List ℕ)
    → 0x10000 < suc p
    → p < 0x110000
    → join (high_of p) (join (low_of p) rest) ≡ p ∷ rest
join_pair p rest low high =
    ap (join (high_of p)) (join_plain (low_of p) rest (low_is_not_high p low high))
    ∙ joined (high_of p) (low_of p) rest (is_pair p low high)
    ∙ ap (λ (q : ℕ). q ∷ rest) (pair_back p low high)

paired-units_of : (p : ℕ) (s : Text) → IsScalar p → paired (units_of p ++ s) ≡ p ∷ paired s
unfolding paired units_of high_of low_of
paired-units_of p s (top, scalar) = elim (Bool-cases (ltb p 0x10000)) [
  | inl c ↦ rw c (join_plain p (paired s) (ground arith))
  | inr c ↦ rw c (join_pair p (paired s) (ground arith) top)
]

paired-units : (ps : List ℕ) → All IsScalar ps → paired (units ps) ≡ ps
unfolding units paired
paired-units [] h = refl
paired-units (p ∷ ps) (h, hs) =
    paired-units_of p (units ps) h ∙ ap (λ (rest : List ℕ). p ∷ rest) (paired-units ps hs)

scalars_kept : (ps : List ℕ) → All IsScalar ps → map scalar_of ps ≡ ps
scalars_kept [] h = refl
scalars_kept (p ∷ ps) ((top, scalar), hs) = rw (scalar, scalars_kept ps hs) refl

-- A text and its well-formed version have the same bytes.
pub utf8-to_well_formed : (s : Text) → IsText s → utf8 (to_well_formed s) ≡ utf8 s
unfolding utf8 to_well_formed
utf8-to_well_formed s h =
    let good = scalars (paired s) (paired-small s h) in
    ap (λ (ps : List ℕ). encode_points (map scalar_of ps))
      (paired-units (map scalar_of (paired s)) good)
    ∙ ap encode_points (scalars_kept (map scalar_of (paired s)) good)
