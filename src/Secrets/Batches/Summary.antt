-- ===== src/Secrets/Batches/Summary.antt =====
-- The summary that `importBatch` of packages/secrets/src/index.ts returns.
use himitsu.Prelude.{true, true}
use himitsu.Text.{Text}
use himitsu.Database.{Database}
