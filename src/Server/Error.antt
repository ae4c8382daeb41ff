-- ===== src/Server/Error.antt =====
-- `ApiError` (crates/git-lfs-delta-server/src/lib.rs): a status and a message.
-- A message that is another error's `to_string` is that error.
use Prim.Native.String.{String}
use git_cdc.Common.{ℕ}
use git_cdc.Core.Manifest.{ManifestError}
use git_cdc.Core.Stream.{CoreError}
use git_cdc.Storage.{StorageError, digest_mismatch, probe_mismatch, provider}

pub data Message : Type 0 where
  text : String → Message
  manifest_text : ManifestError → Message
  core_text : CoreError → Message
  storage_text : StorageError → Message

pub record ApiError : Type 0 where
  pub status : ℕ
  pub message : Message

abbrev pub api_error : ℕ → String → ApiError
api_error status message = record { status = status; message = text message }

abbrev pub unauthorized : ApiError
unauthorized = api_error 401 "authentication required"

abbrev pub database : ApiError
database = api_error 500 "internal service error"

abbrev pub integrity : ApiError
integrity = api_error 500 "stored object failed integrity validation"

-- `ApiError::authentication`
abbrev pub authentication : ApiError
authentication = api_error 502 "authentication provider unavailable"

-- `ApiError::io`
abbrev pub io : ApiError
io = api_error 500 "internal I/O error"

-- `ApiError::storage`
unfoldable pub storage : StorageError → ApiError
storage (digest_mismatch expected actual) = record {
  status = 422;
  message = storage_text (digest_mismatch expected actual);
}
storage probe_mismatch = api_error 500 "object storage error"
storage (provider e) = api_error 500 "object storage error"
