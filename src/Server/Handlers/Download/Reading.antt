-- ===== src/Server/Handlers/Download/Reading.antt =====
-- A download changes none of the tables.
use git_cdc.Common.{ℕ, List, [], ◌∷◌, ◌≡◌}
use git_cdc.Core.Digest.{ObjectOid}
use git_cdc.Core.Manifest.{ChunkDescriptor, ObjectManifest}
use git_cdc.Server.Handlers.Types.{Deployment, Request}
use git_cdc.Server.Handlers.Types.Reading.{enter-Reads}
use git_cdc.Server.Handlers.Download.{
  reconstruct, stage_object, download_basic, download_cdc_manifest, download_cdc_chunk,
}
use git_cdc.Server.Lookup.{load_manifest}
use git_cdc.Server.Lookup.Reading.{load_manifest-Keeps}
use git_cdc.Server.Schema.{ObjectKey}
use git_cdc.Server.Service.{transaction}
use git_cdc.Server.Service.Laws.{
  Reads, reading, Reads-transaction, Reads->>=, Reads->>, Reads-on_store, Reads-require, Reads-pure,
  Reads-file_operation,
}

module _ (d : Deployment) where
  reconstruct-Reads : (id : ℕ) (cs : List ChunkDescriptor) → Reads (reconstruct d id cs)
  unfolding reconstruct
  reconstruct-Reads id [] = search (reading)
  reconstruct-Reads id (c ∷ cs) =
      let ih = reconstruct-Reads id cs in
      Reads->>= (Reads-on_store _ _) (λ bytes.
        Reads->> (Reads-require _ _)
          (Reads->> Reads-file_operation (Reads->>= ih (λ rest. Reads-pure _))))

  stage_object-Reads :
      (oid : ObjectOid) (id : ℕ) (m : ObjectManifest) → Reads (stage_object d oid id m)
  unfolding stage_object
  stage_object-Reads oid id m = search (reading, reconstruct-Reads) depth 20 fits 4000

  pub load_manifest-Reads :
      (object : ObjectKey)
      → Reads {S = d.backing.objects.State} (transaction (load_manifest object))
  load_manifest-Reads object = Reads-transaction (λ db. load_manifest-Keeps (λ x. x ≡ db) object)

  module _ (request : Request) (oid : List ℕ) where
    pub download_basic-Reads : Reads (download_basic d request oid)
    unfolding download_basic
    download_basic-Reads =
        search (reading, enter-Reads, load_manifest-Reads, stage_object-Reads) depth 20 fits 4000

    pub download_cdc_manifest-Reads : Reads (download_cdc_manifest d request oid)
    unfolding download_cdc_manifest
    download_cdc_manifest-Reads = search (reading, enter-Reads, load_manifest-Reads) depth 20

    pub download_cdc_chunk-Reads : (index : ℕ) → Reads (download_cdc_chunk d request oid index)
    unfolding download_cdc_chunk
    download_cdc_chunk-Reads index =
        search (reading, enter-Reads, load_manifest-Reads) depth 20 fits 4000
