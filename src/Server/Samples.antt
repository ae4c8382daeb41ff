-- ===== src/Server/Samples.antt =====
-- Tables and a store that the tests of the server's modules run over: a repository with one object
-- of two chunks, the first of which it names twice.
use git_cdc.Common.{ℕ, ◌+◌, List, [], ◌∷◌, none, some, ok, err, refl, list_eq}
use git_cdc.Core.Digest.{chunk_id_eq}
use git_cdc.Core.Profile.{fast_cdc_v1}
use git_cdc.Core.Manifest.{ObjectManifest, v1}
use git_cdc.Storage.{ObjectStore, Backing, not_found}
use git_cdc.Storage.Memory.{hashes, hex_encode}
use git_cdc.Server.Schema.{
  Db, ObjectKey, ChunkKey, ChunkRow, ObjectChunk, UploadSession, SessionChunk, SessionState,
  Tombstone, QueuedChunk, chunk_key_eq,
}
use git_cdc.Server.Tables.{references, has_chunk}
use git_cdc.Server.Tables.Counts.{Counted}
use git_cdc.Server.World.{World}

abbrev pub object : ℕ → ObjectKey
object n = record { repository_id = 1; oid = record { bytes = n ∷ [] } }

abbrev pub chunk : ℕ → ChunkKey
chunk n = record { repository_id = 1; chunk_id = record { bytes = n ∷ [] } }

abbrev pub row : ℕ → ℕ → ChunkRow
row n count = record { key = chunk n; size = 3; reference_count = count }

abbrev pub link : ℕ → ℕ → ℕ → ObjectChunk
link o ordinal n = record {
  object = object o;
  ordinal = ordinal;
  chunk = chunk n;
  byte_offset = 0;
  byte_length = 3;
}

-- A manifest of one chunk of three bytes.
abbrev pub small : ObjectManifest
small = record {
  version = v1;
  profile = fast_cdc_v1;
  object_oid = record { bytes = 60 ∷ [] };
  object_size = 3;
  chunks = record { id = record { bytes = 40 ∷ [] }; offset = 0; length = 3 } ∷ [];
}

abbrev pub session : ℕ → SessionState → UploadSession
session id state = record {
  id = id;
  object = object 60;
  object_size = 3;
  manifest = some small;
  state = state;
  expires_at = 1000;
}

-- Object 50 has chunk 40 twice and chunk 41, chunk 42 is unreferenced.
abbrev pub tables : List UploadSession → List SessionChunk → List Tombstone → List QueuedChunk → Db
tables sessions session_chunks tombstones queue = record {
  repositories = record { id = 1; owner = []; name = [] } ∷ [];
  repository_grants = [];
  objects = record { key = object 50; size = 9; manifest = none } ∷ [];
  chunks = row 40 2 ∷ row 41 1 ∷ row 42 0 ∷ [];
  object_chunks = link 50 0 40 ∷ link 50 1 40 ∷ link 50 2 41 ∷ [];
  upload_sessions = sessions;
  upload_session_chunks = session_chunks;
  lfs_locks = [];
  reachability_epochs = [];
  reachable_objects = [];
  object_tombstones = tombstones;
  chunk_gc_queue = queue;
}

-- A store that keeps nothing but the paths that it was asked to delete.
abbrev pub deletions : ObjectStore
deletions = record {
  State = List (List ℕ);
  ObjectPath = List ℕ;
  path_from = λ text. text;
  put_create = λ p bytes log. (ok tt, log);
  put = λ p bytes log. (ok tt, log);
  get = λ p log. (err not_found, log);
  head = λ p log. (err not_found, log);
  delete = λ p log. (ok tt, p ∷ log);
}

abbrev pub backing : Backing
backing = record {
  objects = deletions;
  hashes = hashes;
  hex_encode = hex_encode;
  uuid_text = λ id. (48 + id) ∷ [];
}

abbrev pub world : Db → World (List (List ℕ))
world db = record { db = db; store = []; faults = [] }

pub tables-Counted :
    (sessions : List UploadSession) (session_chunks : List SessionChunk)
    (tombstones : List Tombstone) (queue : List QueuedChunk)
    → Counted (tables sessions session_chunks tombstones queue)
unfolding references has_chunk chunk_key_eq chunk_id_eq list_eq
tables-Counted sessions session_chunks tombstones queue = record {
  counts = (refl, (refl, (refl, tt)));
  links = (refl, (refl, (refl, tt)));
}
