-- ===== src/Client/Backend/Uploads.antt =====
-- `upload` of crates/git-lfs-delta-client/src/backend.rs. The worker threads are arguments: what the
-- producer sees of them, and what they leave.
use git_cdc.Common.{
  ◌++◌, ℕ, Bool, false, not, ◌||◌, ◌==◌, List, [], ◌∷◌, Option, Result, ok, err, map_err, any,
  length, nat_eq, leb, codes, if◌then◌else◌,
}
use git_cdc.Client.Backend.Types.{Platform, failure}
use git_cdc.Client.Backend.Retry.{begin_upload, finalize_upload}
use git_cdc.Client.Backend.Producer.{Turn, Job, produce, outcome_of}
use git_cdc.Client.Backend.Downloads.{required_action}
use git_cdc.Client.Transfer.{TransferAction, UploadRequest, BackendError}
use git_cdc.Core.Digest.{object_oid_Eq}
use git_cdc.Core.Manifest.{ObjectManifest}
use git_cdc.Core.Profile.{fast_cdc_v1}
use git_cdc.Core.Stream.{Cdc, Hashes, ChunkStream, new, finish}
use git_cdc.Protocol.Messages.{BeginUploadResponse}

-- Is an index listed twice?
pub has_duplicates : List ℕ → Bool
has_duplicates [] = false
has_duplicates (i ∷ is) = any (λ j. nat_eq i j) is || has_duplicates is

abbrev refusal : List ℕ → Result (Unit {0}) BackendError
refusal message = err (failure message)

-- The checks of the server's plan, for a manifest of so many chunks, before the source is opened
-- again.
pub check_protocol : ℕ → BeginUploadResponse → Result (Unit {0}) BackendError
check_protocol chunks plan =
    if not (nat_eq plan.protocol_version 1)
    then refusal (codes "server selected an unsupported CDC protocol version")
    else if any (λ index. leb chunks index) plan.missing_chunk_indexes
    then refusal (codes "server upload plan contains a chunk index outside the manifest")
    else ok tt

-- The check after it.
pub check_missing : BeginUploadResponse → Result (Unit {0}) BackendError
check_missing plan =
    if has_duplicates plan.missing_chunk_indexes
    then refusal (codes "server upload plan contains duplicate chunk indexes")
    else ok tt

pub check_source : UploadRequest → ObjectManifest → Result (Unit {0}) BackendError
check_source request m =
    if not (m.object_oid == request.oid) || not (nat_eq m.object_size request.size)
    then refusal (codes "upload source does not match the Git LFS OID and size")
    else ok tt

-- `workers` is what the workers leave of the world when they have had some jobs, and `reported` the
-- failure that is still in the channel when they have ended.
module _ (platform : Platform) (cdc : Cdc) (staged : List ℕ → cdc.Reader) (hashes : Hashes)
    (turns : ℕ → Turn) (workers : TransferAction → ℕ → List Job → platform.State → platform.State)
    (reported : Option BackendError) where
  open platform use {State, open_file, core_error_text}

  abbrev Step : Type 0 → Type 0
  Step A = State → Result A BackendError × State

  abbrev resume :
      {A B : Type 0} → (A → Step B) → Result A BackendError × State → Result B BackendError × State
  resume f (ok a, s) = f a s
  resume f (err e, s) = (err e, s)

  infixl 5 ◌>>=◌ ◌>>◌
  abbrev ◌>>=◌ : {A B : Type 0} → Step A → (A → Step B) → Step B
  ◌>>=◌ m f s = resume f (m s)

  abbrev ◌>>◌ : {B : Type 0} → Step (Unit {0}) → Step B → Step B
  m >> k = m >>= λ _. k

  abbrev answer : {A : Type 0} → Result A BackendError → Step A
  answer r s = (r, s)

  abbrev opened_source : List ℕ → List ℕ → Step (List ℕ)
  opened_source text path s =
      let (r, s1) = open_file path s in (map_err (λ error. failure (text ++ error)) r, s1)

  -- The section of `upload` with the threads.
  pub upload_chunks : TransferAction → BeginUploadResponse → ChunkStream → Step (Unit {0})
  upload_chunks action plan stream s =
      let (stopped, jobs) =
        produce core_error_text hashes turns plan.missing_chunk_indexes 0 stream.inner stream in
      (outcome_of stopped reported, workers action plan.upload_id jobs s)

  pub upload : UploadRequest → Step ℕ
  upload request = do
    action ← answer (required_action request.action)
    source ← opened_source (codes "could not open upload source: ") request.path
    manifest ← answer (
        map_err (λ error. failure (core_error_text error))
          (finish hashes (new cdc (staged source) fast_cdc_v1)))
    answer (check_source request manifest)
    plan ← begin_upload platform action (record { protocol_version = 1; manifest = manifest })
    answer (check_protocol (length manifest.chunks) plan)
    again ← opened_source (codes "could not reopen upload source: ") request.path
    answer (check_missing plan)
    upload_chunks action plan (new cdc (staged again) fast_cdc_v1)
    finalize_upload platform action plan.upload_id
    answer (ok request.size)
