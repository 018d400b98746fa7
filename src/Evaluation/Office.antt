-- ===== src/Evaluation/Office.antt =====
-- A small organization, for the tests: an owner (5) and a member (6), one project (7) with two
-- environments (20 and 21), two secrets and one tag.
use himitsu.Prelude.{ℕ, true, false, none, [], ◌∷◌}
use himitsu.Text.{codes}
use himitsu.Authz.{owner, member}
use himitsu.Database.{Database, EnvironmentRow, SecretRow}

abbrev pub row : ℕ → ℕ → EnvironmentRow
row id order = record {
  id = id;
  project_id = 7;
  name = codes "Staging";
  slug = order ∷ codes "staging";
  display_order = order;
  protected = false;
  deleted_at = none;
  purge_after = none;
  deleted_by_project_at = none;
}

abbrev pub secret : ℕ → SecretRow
secret id = record {
  id = id;
  project_id = 7;
  environment_id = 20;
  key = codes "TOKEN";
  notes = none;
  current_version = 1;
  deleted_at = none;
  deleted_by_project_at = none;
  deleted_by_environment_at = none;
}

abbrev pub office : Database
office = record {
  org_id = 1;
  transaction_now = 1000;
  memberships =
      record { user_id = 5; role = owner; active = true }
      ∷ record { user_id = 6; role = member; active = true }
      ∷ [];
  overrides = [];
  projects =
      record {
        id = 7;
        name = codes "Web";
        slug = codes "web";
        description = none;
        default_environments = none;
        archived_at = none;
        deleted_at = none;
        purge_after = none;
      }
      ∷ [];
  environments = row 20 b'a' ∷ row 21 b'b' ∷ [];
  secrets = secret 30 ∷ secret 31 ∷ [];
  secret_versions = [];
  secret_tags = [];
  encryption_keys = [];
  tags = 40 ∷ 41 ∷ [];
  project_tags = record { project_id = 7; tag_id = 40 } ∷ [];
  audit_events = [];
}
