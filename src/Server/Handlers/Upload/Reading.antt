-- ===== src/Server/Handlers/Upload/Reading.antt =====
-- Reading chunks leaves the tables alone.
use git_cdc.Common.{ℕ, suc, List, [], ◌∷◌, ◌≡◌}
use git_cdc.Core.Manifest.{ChunkDescriptor}
use git_cdc.Server.Error.{ApiError}
use git_cdc.Server.Handlers.Types.{Deployment}
use git_cdc.Server.Handlers.Upload.{assemble, missing_from}
use git_cdc.Server.Schema.{ObjectKey}
use git_cdc.Server.Service.{transaction}
use git_cdc.Server.Service.Laws.{
  Reads, reading, Reads-transaction, Reads->>=, Reads->>, Reads-on_store, Reads-require, Reads-pure,
}
use git_cdc.Server.Upload.{load_finalizable_upload}
use git_cdc.Server.Upload.Reading.{load_finalizable_upload-Keeps}
use git_cdc.Storage.{StorageError}

module _ (d : Deployment) where
  pub assemble-Reads :
      (convert : StorageError → ApiError) (id : ℕ) (cs : List ChunkDescriptor)
      → Reads (assemble d convert id cs)
  unfolding assemble
  assemble-Reads convert id [] = search (reading)
  assemble-Reads convert id (c ∷ cs) =
      let ih = assemble-Reads convert id cs in
      Reads->>= (Reads-on_store _ _)
        (λ bytes. Reads->> (Reads-require _ _) (Reads->>= ih (λ rest. Reads-pure _)))

  pub missing_from-Reads :
      (id index : ℕ) (cs : List ChunkDescriptor) → Reads (missing_from d id index cs)
  unfolding missing_from
  missing_from-Reads id index [] = search (reading)
  missing_from-Reads id index (c ∷ cs) =
      let ih = missing_from-Reads id (suc index) cs in
      Reads->>= (Reads-on_store _ _)
        (λ found. Reads->> (Reads-require _ _) (Reads->>= ih (λ rest. Reads-pure _)))

  pub load_finalizable_upload-Reads :
      (now : ℕ) (object : ObjectKey) (upload_id : ℕ)
      → Reads {S = d.backing.objects.State}
          (transaction (load_finalizable_upload now object upload_id))
  load_finalizable_upload-Reads now object upload_id =
      Reads-transaction (λ db. load_finalizable_upload-Keeps (λ x. x ≡ db) now object upload_id)
