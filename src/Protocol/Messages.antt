-- ===== src/Protocol/Messages.antt =====
-- crates/git-lfs-delta-protocol/src/lfs.rs and cdc.rs: the messages of the Batch API and of a CDC
-- upload. A URL is a value of the `url` crate, a text a list of bytes, and a map of texts a list of
-- pairs in the order of the keys.
use git_cdc.Common.{ℕ, List, Option}
use git_cdc.Core.Digest.{ObjectOid}
use git_cdc.Core.Manifest.{ObjectManifest}
use git_cdc.Protocol.{TransferKind}

pub data Operation : Type 0 where
  upload download : Operation

pub record BatchObject : Type 0 where
  pub oid : ObjectOid
  pub size : ℕ

-- `reference` is read by nobody.
pub record BatchRequest : Type 0 where
  pub operation : Operation
  pub transfers : List (List ℕ)
  pub reference : Option (List ℕ)
  pub objects : List BatchObject

pub record LfsAction (Url : Type 0) : Type 0 where
  pub href : Url
  pub header : List (List ℕ × List ℕ)
  pub expires_at : Option (List ℕ)

pub record BatchObjectError : Type 0 where
  pub code : ℕ
  pub message : List ℕ

pub record BatchObjectResponse (Url : Type 0) : Type 0 where
  pub oid : ObjectOid
  pub size : ℕ
  pub actions : List (List ℕ × LfsAction Url)
  pub error : Option BatchObjectError

pub record BatchResponse (Url : Type 0) : Type 0 where
  pub transfer : TransferKind
  pub objects : List (BatchObjectResponse Url)

pub record BeginUploadRequest : Type 0 where
  pub protocol_version : ℕ
  pub manifest : ObjectManifest

-- `expires_at` is the time that the text stands for.
pub record BeginUploadResponse : Type 0 where
  pub protocol_version : ℕ
  pub upload_id : ℕ
  pub missing_chunk_indexes : List ℕ
  pub expires_at : ℕ
