-- ===== src/Secrets/Utf8/RoundTrip.antt =====
-- Encoding a text and decoding its bytes.
use himitsu.Prelude.{
  ℕ, suc, ◌+◌, ◌-◌, ◌*◌, ◌/◌, ◌%◌, ◌<◌, ◌≡◌, refl, ap, ◌∙◌, true, false, ◌&&◌, List, [], ◌∷◌, ◌++◌,
  map, All, ltb, ◌==◌, if◌then◌else◌, Bool-cases, inl, inr, arith,
}
use himitsu.Text.{Text, between}
use himitsu.Crypto.{Bytes}
use himitsu.Secrets.Utf8.{
  is_high, is_low, point_of_pair, trail, encode_point, scalar_of, join, paired, encode_points, utf8,
  units_of, units, to_well_formed, Pending, idle, wants, start, advance, decode_from, decode,
}

abbrev pub IsScalar : ℕ → Type 0
IsScalar p = (p < 0x110000) × (between 0xd800 0xdfff p ≡ false)

one_byte : (p : ℕ) → p < 0x80 → start p ≡ (p ∷ [], idle)
unfolding start
one_byte p h = ground arith

two_start :
    (p : ℕ) → 0x80 < suc p → p < 0x800 → start (192 + p / 64) ≡ ([], wants 1 0x80 0xbf (p / 64))
unfolding start
two_start p low high = ground arith

three_start :
    (p : ℕ)
    → 0x800 < suc p
    → p < 0x10000
    → start (224 + p / 4096) ≡ (
      [],
      wants 2
          (if p / 4096 == 0 then 0xa0 else 0x80)
          (if p / 4096 == 13 then 0x9f else 0xbf)
          (p / 4096),
    )
unfolding start
three_start p low high = ground arith

four_start :
    (p : ℕ)
    → 0x10000 < suc p
    → p < 0x110000
    → start (240 + p / 262144) ≡ (
      [],
      wants 3
          (if p / 262144 == 0 then 0x90 else 0x80)
          (if p / 262144 == 4 then 0x8f else 0xbf)
          (p / 262144),
    )
unfolding start
four_start p low high = ground arith

last_byte : (p q : ℕ) → advance (wants 1 0x80 0xbf p) (trail q) ≡ (units_of (p * 64 + q % 64), idle)
unfolding advance
last_byte p q = ground arith

middle_byte :
    (n low high p q : ℕ)
    → 1 < n
    → between low high (trail q) ≡ true
    → advance (wants n low high p) (trail q) ≡ ([], wants (n - 1) 0x80 0xbf (p * 64 + q % 64))
unfolding advance
middle_byte n low high p q h inside = ground arith

second_of_three :
    (p : ℕ)
    → 0x800 < suc p
    → p < 0x10000
    → between 0xd800 0xdfff p ≡ false
    → between
        (if p / 4096 == 0 then 0xa0 else 0x80)
        (if p / 4096 == 13 then 0x9f else 0xbf)
        (trail (p / 64))
      ≡ true
second_of_three p low high h = ground arith

second_of_four :
    (p : ℕ)
    → 0x10000 < suc p
    → p < 0x110000
    → between
        (if p / 262144 == 0 then 0x90 else 0x80)
        (if p / 262144 == 4 then 0x8f else 0xbf)
        (trail (p / 4096))
      ≡ true
second_of_four p low high = ground arith

step_out :
    (b : ℕ) (rest out : Bytes) (next : Pending)
    → start b ≡ (out, next)
    → decode_from idle (b ∷ rest) ≡ out ++ decode_from next rest
unfolding decode_from advance
step_out b rest out next h = rw h refl

step_on :
    (n low high p b : ℕ) (rest out : Bytes) (next : Pending)
    → advance (wants n low high p) b ≡ (out, next)
    → decode_from (wants n low high p) (b ∷ rest) ≡ out ++ decode_from next rest
unfolding decode_from
step_on n low high p b rest out next h = rw h refl

three_digits : (p : ℕ) → (p / 4096 * 64 + p / 64 % 64) * 64 + p % 64 ≡ p
three_digits p = omega arith

four_digits : (p : ℕ) → ((p / 262144 * 64 + p / 4096 % 64) * 64 + p / 64 % 64) * 64 + p % 64 ≡ p
four_digits p = omega arith

two_bytes :
    (p : ℕ) (rest : Bytes)
    → 0x80 < suc p
    → p < 0x800
    → decode_from idle ((192 + p / 64) ∷ trail p ∷ rest) ≡ units_of p ++ decode_from idle rest
two_bytes p rest low high =
    step_out (192 + p / 64) (trail p ∷ rest) [] _ (two_start p low high)
    ∙ step_on 1 0x80 0xbf (p / 64) (trail p) rest _ idle (last_byte (p / 64) p)
    ∙ ap (λ (q : ℕ). units_of q ++ decode_from idle rest) (omega arith)

three_bytes :
    (p : ℕ) (rest : Bytes)
    → 0x800 < suc p
    → p < 0x10000
    → between 0xd800 0xdfff p ≡ false
    → decode_from idle ((224 + p / 4096) ∷ trail (p / 64) ∷ trail p ∷ rest)
      ≡ units_of p ++ decode_from idle rest
three_bytes p rest low high scalar =
    step_out (224 + p / 4096) (trail (p / 64) ∷ trail p ∷ rest) [] _ (three_start p low high)
    ∙ step_on 2 _ _ (p / 4096) (trail (p / 64)) (trail p ∷ rest) [] _
        (middle_byte 2 _ _ (p / 4096) (p / 64) (omega arith) (second_of_three p low high scalar))
    ∙ step_on 1 0x80 0xbf (p / 4096 * 64 + p / 64 % 64) (trail p) rest _ idle
        (last_byte (p / 4096 * 64 + p / 64 % 64) p)
    ∙ ap (λ (q : ℕ). units_of q ++ decode_from idle rest) (three_digits p)

four_bytes :
    (p : ℕ) (rest : Bytes)
    → 0x10000 < suc p
    → p < 0x110000
    → decode_from idle ((240 + p / 262144) ∷ trail (p / 4096) ∷ trail (p / 64) ∷ trail p ∷ rest)
      ≡ units_of p ++ decode_from idle rest
four_bytes p rest low high =
    step_out (240 + p / 262144) (trail (p / 4096) ∷ trail (p / 64) ∷ trail p ∷ rest) [] _
      (four_start p low high)
    ∙ step_on 3 _ _ (p / 262144) (trail (p / 4096)) (trail (p / 64) ∷ trail p ∷ rest) [] _
        (middle_byte 3 _ _ (p / 262144) (p / 4096) (omega arith) (second_of_four p low high))
    ∙ step_on 2 0x80 0xbf (p / 262144 * 64 + p / 4096 % 64) (trail (p / 64)) (trail p ∷ rest) [] _ (
        middle_byte 2 0x80 0xbf (p / 262144 * 64 + p / 4096 % 64) (p / 64) (omega arith)
          (ground arith))
    ∙ step_on 1 0x80 0xbf ((p / 262144 * 64 + p / 4096 % 64) * 64 + p / 64 % 64) (trail p) rest _
        idle (last_byte ((p / 262144 * 64 + p / 4096 % 64) * 64 + p / 64 % 64) p)
    ∙ ap (λ (q : ℕ). units_of q ++ decode_from idle rest) (four_digits p)

one_unit :
    (p : ℕ) (rest : Bytes)
    → p < 0x80
    → decode_from idle (p ∷ rest) ≡ units_of p ++ decode_from idle rest
one_unit p rest h =
    step_out p rest (p ∷ []) idle (one_byte p h)
    ∙ ap (λ (s : Text). s ++ decode_from idle rest) (itself p (omega (arith, h)))
  where
    itself : (p : ℕ) → p < 0x10000 → p ∷ [] ≡ units_of p
    itself p h = unfold units_of in ground arith

-- One code point is decoded to its code units.
decode-encode_point :
    (p : ℕ) (rest : Bytes)
    → IsScalar p
    → decode_from idle (encode_point p ++ rest) ≡ units_of p ++ decode_from idle rest
unfolding encode_point
decode-encode_point p rest (top, scalar) = elim (Bool-cases (ltb p 0x80)) [
  | inl a ↦ rw a (one_unit p rest (ground arith))
  | inr a ↦ elim (Bool-cases (ltb p 0x800)) [
    | inl b ↦ rw (a, b) (two_bytes p rest (ground arith) (ground arith))
    | inr b ↦ elim (Bool-cases (ltb p 0x10000)) [
      | inl c ↦ rw (a, b, c) (three_bytes p rest (ground arith) (ground arith) scalar)
      | inr c ↦ rw (a, b, c) (four_bytes p rest (ground arith) top)
    ]
  ]
]

decode-encode_points :
    (ps : List ℕ) → All IsScalar ps → decode_from idle (encode_points ps) ≡ units ps
unfolding encode_points units decode_from
decode-encode_points [] h = refl
decode-encode_points (p ∷ ps) (h, hs) =
    decode-encode_point p (encode_points ps) h
    ∙ ap (λ (s : Text). units_of p ++ s) (decode-encode_points ps hs)

-- Every element is a UTF-16 code unit.
abbrev pub IsText : Text → Type 0
IsText = All (λ c. c < 0x10000)

pair_small : (c d : ℕ) → is_high c && is_low d ≡ true → point_of_pair c d < 0x110000
pair_small c d h = ground arith

join-small :
    (c : ℕ) (rest : List ℕ)
    → c < 0x10000
    → All (λ p. p < 0x110000) rest
    → All (λ p. p < 0x110000) (join c rest)
join-small c [] small h = (omega (arith, small), tt)
join-small c (d ∷ rest) small (h, hs) = elim (Bool-cases (is_high c && is_low d)) [
  | inl e ↦ rw e (pair_small c d e, hs)
  | inr e ↦ rw e (omega (arith, small), (h, hs))
]

pub paired-small : (s : Text) → IsText s → All (λ p. p < 0x110000) (paired s)
unfolding paired
paired-small [] h = tt
paired-small (c ∷ s) (h, hs) = join-small c (paired s) h (paired-small s hs)

scalar_of-IsScalar : (p : ℕ) → p < 0x110000 → IsScalar (scalar_of p)
scalar_of-IsScalar p h = (ground arith, ground arith)

pub scalars : (ps : List ℕ) → All (λ p. p < 0x110000) ps → All IsScalar (map scalar_of ps)
scalars [] h = tt
scalars (p ∷ ps) (h, hs) = (scalar_of-IsScalar p h, scalars ps hs)

-- Bytes of a text are decoded to the text, with U+FFFD for each lone surrogate.
pub decode-utf8 : (s : Text) → IsText s → decode (utf8 s) ≡ to_well_formed s
unfolding decode utf8 to_well_formed
decode-utf8 s h =
    decode-encode_points (map scalar_of (paired s)) (scalars (paired s) (paired-small s h))
