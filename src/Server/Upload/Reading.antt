-- ===== src/Server/Upload/Reading.antt =====
-- Loading a session writes nothing.
use git_cdc.Common.{ℕ}
use git_cdc.Server.Schema.{Db, ObjectKey}
use git_cdc.Server.Tx.{Keeps, keeping}
use git_cdc.Server.Upload.{load_open_upload, load_finalizable_upload}

module _ (P : Db → Type 0) (now : ℕ) (object : ObjectKey) (upload_id : ℕ) where
  pub load_open_upload-Keeps : Keeps P (load_open_upload now object upload_id)
  unfolding load_open_upload
  load_open_upload-Keeps = search (keeping) depth 12

  pub load_finalizable_upload-Keeps : Keeps P (load_finalizable_upload now object upload_id)
  unfolding load_finalizable_upload
  load_finalizable_upload-Keeps = search (keeping) depth 12
