-- ===== src/Secrets/Limits.antt =====
-- The limit of packages/secrets/src/index.ts on values, in code units.
use himitsu.Prelude.{
  ℕ, suc, ◌+◌, ◌*◌, ◌≤◌, ◌<◌, ◌≡◌, refl, ap, inl, inr, true, false, ◌&&◌, List, [], ◌∷◌, map,
  length, length-append, ltb, Bool-cases, arith,
}
use himitsu.Text.{Text, between}
use himitsu.Errors.{value_too_large, ok, err}
use himitsu.Crypto.{Bytes}
use himitsu.Secrets.{failed, max_value_bytes, validate_secret_value}
use himitsu.Secrets.Utf8.{
  is_high, is_low, point_of_pair, encode_point, scalar_of, join, paired, encode_points, utf8,
}
use himitsu.Secrets.Utf8.RoundTrip.{IsText}

-- The bytes of code points.
abbrev sizes : List ℕ → ℕ
sizes [] = 0
sizes (p ∷ ps) = length (encode_point (scalar_of p)) + sizes ps

length-encode_points : (ps : List ℕ) → length (encode_points (map scalar_of ps)) ≡ sizes ps
unfolding encode_points
length-encode_points [] = refl
length-encode_points (p ∷ ps) =
    let rest = length-encode_points ps in
    omega
      (arith, rest, length-append (encode_point (scalar_of p)) (encode_points (map scalar_of ps)))

unit_size :
    (c : ℕ)
    → c < 0x10000
    → (1 ≤ length (encode_point (scalar_of c))) × (length (encode_point (scalar_of c)) ≤ 3)
unfolding encode_point
unit_size c h = (ground arith, ground arith)

pair_size :
    (c d : ℕ)
    → is_high c && is_low d ≡ true
    → length (encode_point (scalar_of (point_of_pair c d))) ≡ 4
unfolding encode_point
pair_size c d h = ground arith

surrogate_size : (c : ℕ) → between 0xd800 0xdfff c ≡ true → length (encode_point (scalar_of c)) ≡ 3
unfolding encode_point
surrogate_size c h = ground arith

-- A code unit takes one to three bytes, also as half of a pair.
join-sizes :
    (c : ℕ) (ps : List ℕ)
    → c < 0x10000
    → (suc (sizes ps) ≤ sizes (join c ps)) × (sizes (join c ps) ≤ 3 + sizes ps)
join-sizes c [] h = let (low, high) = unit_size c h in (omega arith, omega arith)
join-sizes c (d ∷ ps) h = elim (Bool-cases (is_high c && is_low d)) [
  | inr apart ↦ let (low, high) = unit_size c h in rw apart (omega arith, omega arith)
  | inl pair ↦
      let size = pair_size c d pair in
      let low = surrogate_size d (ground arith) in
      rw pair (omega (arith, size, low), omega (arith, size, low))
]

paired-sizes :
    (s : Text) → IsText s → (length s ≤ sizes (paired s)) × (sizes (paired s) ≤ 3 * length s)
unfolding paired
paired-sizes [] h = (omega arith, omega arith)
paired-sizes (c ∷ s) (h, hs) =
    let (low, high) = join-sizes c (paired s) h in
    let (least, most) = paired-sizes s hs in (omega arith, omega arith)

utf8_size : (s : Text) → IsText s → (length s ≤ length (utf8 s)) × (length (utf8 s) ≤ 3 * length s)
unfolding utf8
utf8_size s h =
    let same = length-encode_points (paired s) in
    let (low, high) = paired-sizes s h in (omega (arith, same, low), omega (arith, same, high))

-- The limit of 64 KiB in terms of what a caller counts: a value of at most 21845 code units is
-- accepted, one of more than 65536 is refused, whatever characters they are, and what is accepted
-- encodes to at most 65536 bytes, no fewer than its code units and at most three for each.
pub value_limit :
    (value : Text)
    → IsText value
    → (length value ≤ 21845 → validate_secret_value value ≡ ok (utf8 value))
      × (65536 < length value → validate_secret_value value ≡ err (failed value_too_large))
      × ((bytes : Bytes)
          → validate_secret_value value ≡ ok bytes
          → (length bytes ≤ 65536)
            × (length value ≤ length bytes)
            × (length bytes ≤ 3 * length value))
unfolding validate_secret_value
value_limit value h =
    let (low, high) = utf8_size value h in
    (
      λ small.
          let fits : ltb max_value_bytes (length (utf8 value)) ≡ false = ground arith in
          rw fits refl,
      λ large.
          let over : ltb max_value_bytes (length (utf8 value)) ≡ true = ground arith in
          rw over refl,
      λ bytes accepted. elim (Bool-cases (ltb max_value_bytes (length (utf8 value)))) [
        | inl over ↦ ground (arith, over, accepted)
        | inr fits ↦
            let same : utf8 value ≡ bytes = ground (arith, fits, accepted) in
            let short : length (utf8 value) ≤ 65536 = ground (arith, fits) in
            let counted : length (utf8 value) ≡ length bytes = ap (λ (b : Bytes). length b) same in
            (
              omega (arith, short, counted),
              omega (arith, low, counted),
              omega (arith, high, counted),
            )
      ],
    )
