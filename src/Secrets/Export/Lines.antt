-- ===== src/Secrets/Export/Lines.antt =====
-- The lines of a dotenv or shell export of packages/secrets/src/index.ts.
use himitsu.Prelude.{◌≡◌, inl, inr, true, List, ◌∷◌, ◌++◌, Bool-cases, arith}
use himitsu.Text.{Text}
use himitsu.Errors.{Result-cases, ok}
use himitsu.Secrets.Export.{Entry, is_exportable, exportable_key, lines_of}

-- The first line of an export and the lines behind it.
pub lines_of-cons :
    (line : Entry → Text) (e : Entry) (rest : List Entry) (content : Text)
    → lines_of line (e ∷ rest) ≡ ok content
    → (text : Text) × (lines_of line rest ≡ ok text)
      × (is_exportable e.key ≡ true)
      × (content ≡ line e ++ 10 ∷ text)
unfolding lines_of exportable_key
lines_of-cons line e rest content h = elim (Bool-cases (is_exportable e.key)) [
  | inr bad ↦ ground (arith, bad, h)
  | inl good ↦ elim (Result-cases (lines_of line rest)) [
    | inl (error, bad) ↦ ground (arith, good, bad, h)
    | inr (text, more) ↦ (text, more, good, ground (arith, good, more, h))
  ]
]
