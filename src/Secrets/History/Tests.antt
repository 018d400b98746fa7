-- ===== src/Secrets/History/Tests.antt =====
-- The theorems on histories, at given runs.
use himitsu.Prelude.{
  ℕ, List, suc, length, find, ◌⊎◌, ◌≡◌, false, none, some, [], ◌∷◌, arith, Option, ◌≤◌,
}
use himitsu.Text.{Text, codes}
use himitsu.Errors.{ok, err, not_found}
use himitsu.Database.{SecretRow}
use himitsu.Audit.{AuditEvent}
use himitsu.Tenant.{logged}
use himitsu.Evaluation.Office.{office}
use himitsu.Evaluation.Transparent.{transparent, transparent-IsCipher, master, random}
use himitsu.Secrets.{validate_secret_key, failed}
use himitsu.Secrets.Utf8.{to_well_formed}
use himitsu.Secrets.Writing.{is_recoverable}
use himitsu.Secrets.History.Creation.{create_secret_effect, Spared, Fresh, Revived}
use himitsu.Secrets.History.Runs.{Calls, begin, sets, Explained, history_refines, get_reads_last}
use himitsu.Secrets.History.Commands.{replay, set, roll_back}
use himitsu.Secrets.Changes.{update, rollback}
use himitsu.Secrets.Reading.{get, list_versions}
use himitsu.Secrets.Samples.{
  removed, draws, input, created, updated, rolled, got, created_keyed, first_history,
}
use himitsu.Secrets.History.Removal.{delete_hides}

create_secret_effect_example :
    (key : Text) × (validate_secret_key (codes "API_KEY") false ≡ ok key)
    × Spared 5 transparent transparent-IsCipher master draws 7 20 input office created.1 created.0
        key
    × (((find (is_recoverable 7 20 key) office.secrets ≡ none)
          × Fresh 5 transparent transparent-IsCipher master draws 7 20 input office created.1
              created.0 key)
        ⊎ ((r : SecretRow) × (find (is_recoverable 7 20 key) office.secrets ≡ some r)
            × Revived 5 transparent transparent-IsCipher master draws 7 20 input office created.1
                created.0 r))
create_secret_effect_example =
    create_secret_effect 5 transparent transparent-IsCipher master draws 7 20 input office created.1
      created.0 tt created.2

calls : Calls transparent master 50 created.1 (roll_back 1 ∷ set (codes "second") ∷ []) rolled.1
calls =
    Calls.rolls_back 5 (random 5) 1 none none (set (codes "second") ∷ []) created.1 updated.1
      rolled.1 rolled.0
      (sets 5 (random 4) (codes "second") none none (some 1) none [] created.1 created.1 updated.1
        updated.0 (begin created.1) (omega arith) updated.2)
      rolled.2

history_refines_example :
    Explained transparent master 50
      (roll_back 1 ∷ set (codes "second") ∷ [])
      (codes "first" ∷ [])
      rolled.1
history_refines_example =
    history_refines transparent master 50 transparent-IsCipher
      (roll_back 1 ∷ set (codes "second") ∷ []) (codes "first" ∷ []) created.1 rolled.1
      created_keyed first_history calls

get_reads_last_example :
    (u : Text) × (us : List Text) × (replay
        (roll_back 1 ∷ set (codes "second") ∷ [])
        (codes "first" ∷ [])
      ≡ some (u ∷ us))
    × (got.0.value ≡ to_well_formed u)
    × (got.0.metadata.current_version ≡ suc (length us))
    × (event : AuditEvent) × (got.1 ≡ logged event rolled.1)
get_reads_last_example =
    get_reads_last transparent transparent-IsCipher master 5 50
      (roll_back 1 ∷ set (codes "second") ∷ []) (codes "first") [] created.1 rolled.1 got.1 got.0
      created_keyed first_history calls got.2

delete_hides_example :
    (get 6 transparent master 50 removed.1 ≡ (err (failed not_found), removed.1))
    × (list_versions 6 50 removed.1 ≡ (err (failed not_found), removed.1))
    × ((value : Option Text) (notes : Option (Option Text)) (change_note : Option Text)
          (expected_version : Option ℕ) (tag_ids : Option (List ℕ))
        → update 6 transparent master
            (random 9)
            50
            value
            notes
            change_note
            expected_version
            tag_ids
            removed.1
          ≡ (err (failed not_found), removed.1))
    × ((target : ℕ) (expected_version : Option ℕ) (change_note : Option Text)
        → 1 ≤ target
        → rollback 6 transparent master (random 9) 50 target expected_version change_note removed.1
          ≡ (err (failed not_found), removed.1))
delete_hides_example =
    delete_hides 5 50 rolled.1 removed.1 removed.0 6 transparent master (random 9) removed.2
