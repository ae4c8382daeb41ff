-- ===== src/Server/Lookup/Reading.antt =====
-- The look-ups write nothing.
use git_cdc.Common.{ℕ, List}
use git_cdc.Server.Lookup.{repository_id, load_manifest}
use git_cdc.Server.Schema.{Db, ObjectKey}
use git_cdc.Server.Tx.{Keeps, keeping}

module _ (P : Db → Type 0) where
  pub repository_id-Keeps : (owner name : List ℕ) → Keeps P (repository_id owner name)
  unfolding repository_id
  repository_id-Keeps owner name = search (keeping) depth 12

  pub load_manifest-Keeps : (object : ObjectKey) → Keeps P (load_manifest object)
  unfolding load_manifest
  load_manifest-Keeps object = search (keeping) depth 12
