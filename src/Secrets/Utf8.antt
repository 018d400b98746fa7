-- ===== src/Secrets/Utf8.antt =====
-- `Buffer.from(text, "utf8")` and `buffer.toString("utf8")`, with which packages/secrets/src/index.ts
-- turns a value into bytes and back. A lone surrogate is encoded as U+FFFD; the decoder is the one
-- of the WHATWG Encoding Standard, which puts U+FFFD in place of each ill-formed sequence.
pub mod RoundTrip
pub mod WellFormed
use himitsu.Prelude.{
  ℕ, ◌+◌, ◌-◌, ◌*◌, ◌/◌, ◌%◌, Bool, ◌&&◌, List, [], ◌∷◌, ◌++◌, map, ltb, ◌==◌, if◌then◌else◌,
}
use himitsu.Text.{Text, between}
use himitsu.Crypto.{Bytes}

abbrev pub is_high : ℕ → Bool
is_high c = between 0xd800 0xdbff c

abbrev pub is_low : ℕ → Bool
is_low c = between 0xdc00 0xdfff c

abbrev pub replacement : ℕ
replacement = 0xfffd

abbrev pub point_of_pair : ℕ → ℕ → ℕ
point_of_pair high low = 0x10000 + ((high - 0xd800) * 1024 + (low - 0xdc00))

abbrev pub trail : ℕ → ℕ
trail n = 128 + n % 64

-- The bytes of one code point.
unfoldable pub encode_point : ℕ → Bytes
encode_point p =
    if ltb p 0x80
    then p ∷ []
    else if ltb p 0x800
    then (192 + p / 64) ∷ trail p ∷ []
    else if ltb p 0x10000
    then (224 + p / 4096) ∷ trail (p / 64) ∷ trail p ∷ []
    else (240 + p / 262144) ∷ trail (p / 4096) ∷ trail (p / 64) ∷ trail p ∷ []

-- A code unit that stands for itself, or for nothing.
abbrev pub scalar_of : ℕ → ℕ
scalar_of c = if between 0xd800 0xdfff c then replacement else c

abbrev pub join : ℕ → List ℕ → List ℕ
join c [] = c ∷ []
join c (d ∷ rest) = if is_high c && is_low d then point_of_pair c d ∷ rest else c ∷ d ∷ rest

-- The text with each surrogate pair as one code point.
unfoldable pub paired : Text → List ℕ
paired [] = []
paired (c ∷ s) = join c (paired s)

unfoldable pub encode_points : List ℕ → Bytes
encode_points [] = []
encode_points (p ∷ rest) = encode_point p ++ encode_points rest

-- `Buffer.from(text, "utf8")`.
unfoldable pub utf8 : Text → Bytes
unfolding paired encode_points encode_point
utf8 s = encode_points (map scalar_of (paired s))

-- The code units of a code point.
unfoldable pub units_of : ℕ → Text
units_of p =
    if ltb p 0x10000
    then p ∷ []
    else (0xd800 + (p - 0x10000) / 1024) ∷ (0xdc00 + (p - 0x10000) % 1024) ∷ []

unfoldable pub units : List ℕ → Text
units [] = []
units (p ∷ rest) = units_of p ++ units rest

-- `text.toWellFormed()`: each lone surrogate is replaced.
unfoldable pub to_well_formed : Text → Text
unfolding units units_of paired
to_well_formed s = units (map scalar_of (paired s))

-- Between two bytes: no sequence is open, or one wants so many bytes more, the next within bounds,
-- and has so far a point.
pub data Pending : Type 0 where
  idle : Pending
  wants : ℕ → ℕ → ℕ → ℕ → Pending

unfoldable pub start : ℕ → Text × Pending
start b =
    if ltb b 0x80
    then (b ∷ [], idle)
    else if between 0xc2 0xdf b
    then ([], wants 1 0x80 0xbf (b % 32))
    else if between 0xe0 0xef b
    then (
      [],
      wants 2 (if b == 0xe0 then 0xa0 else 0x80) (if b == 0xed then 0x9f else 0xbf) (b % 16),
    )
    else if between 0xf0 0xf4 b
    then ([], wants 3 (if b == 0xf0 then 0x90 else 0x80) (if b == 0xf4 then 0x8f else 0xbf) (b % 8))
    else (replacement ∷ [], idle)

unfoldable pub advance : Pending → ℕ → Text × Pending
unfolding start units_of
advance idle b = start b
advance (wants n low high p) b =
    if between low high b
    then if n == 1
      then (units_of (p * 64 + b % 64), idle)
      else ([], wants (n - 1) 0x80 0xbf (p * 64 + b % 64))
    else (replacement ∷ (start b).0, (start b).1)

unfoldable pub decode_from : Pending → Bytes → Text
unfolding advance
decode_from idle [] = []
decode_from (wants n low high p) [] = replacement ∷ []
decode_from state (b ∷ rest) = let (out, next) = advance state b in out ++ decode_from next rest

-- `buffer.toString("utf8")`.
unfoldable pub decode : Bytes → Text
unfolding decode_from
decode bytes = decode_from idle bytes
