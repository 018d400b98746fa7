-- ===== src/Secrets/History/Commands.antt =====
-- The abstract operations on the history of a secret, for the calls of packages/secrets/src/index.ts.
use himitsu.Prelude.{
  ℕ, ◌<◌, ◌≡◌, ap, sym, ◌∙◌, inl, inr, Bool, true, false, Option, some, none, List, [], ◌∷◌, length,
  ltb, if◌then◌else◌, Option-cases, arith,
}
use himitsu.Text.{Text}
use himitsu.Secrets.History.{value_of}

-- The abstract operations on a history.
pub data Command : Type 0 where
  set : Text → Command
  roll_back : ℕ → Command

abbrev pub pushed_onto : List Text → Option Text → Option (List Text)
pushed_onto ts none = none
pushed_onto ts (some t) = some (t ∷ ts)

-- One operation: a value goes on top, or the value of an earlier version does.
abbrev pub perform : Command → List Text → Option (List Text)
perform (set t) ts = some (t ∷ ts)
perform (roll_back version) ts =
    if ltb version (length ts) then pushed_onto ts (value_of version ts) else none

abbrev pub performed : Command → Option (List Text) → Option (List Text)
performed c none = none
performed c (some ts) = perform c ts

-- A run of operations, the last one first in the list.
abbrev pub replay : List Command → List Text → Option (List Text)
replay [] ts = some ts
replay (c ∷ cs) ts = performed c (replay cs ts)

pub rolled_back :
    (version : ℕ) (t : Text) (ts : List Text)
    → value_of version ts ≡ some t
    → version < length ts
    → perform (roll_back version) ts ≡ some (t ∷ ts)
rolled_back version t ts stored below = ground (arith, stored, below)

perform_grows :
    (c : Command) (vs now : List Text)
    → perform c vs ≡ some now
    → (u : Text) × (us : List Text) × (now ≡ u ∷ us)
perform_grows (set t) vs now h = (t, vs, ground (arith, h))
perform_grows (roll_back version) vs now h = elim (Option-cases (value_of version vs)) [
  | inl missing ↦ let bad : ◌≡◌ {A = Bool} false true = ground (arith, h, missing) in cc
  | inr (u, found) ↦ (u, vs, ground (arith, h, found))
]

pub replay_grows :
    (cs : List Command) (t : Text) (ts now : List Text)
    → replay cs (t ∷ ts) ≡ some now
    → (u : Text) × (us : List Text) × (now ≡ u ∷ us)
replay_grows [] t ts now h = (t, ts, ground (arith, h))
replay_grows (c ∷ cs) t ts now h = elim (Option-cases (replay cs (t ∷ ts))) [
  | inl stopped ↦ let bad : performed c none ≡ some now = ap (performed c) (sym stopped) ∙ h in cc
  | inr (vs, before) ↦ perform_grows c vs now (ap (performed c) (sym before) ∙ h)
]
