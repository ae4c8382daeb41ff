-- ===== src/Server/Handlers/Batch.antt =====
-- `batch` and `action_url` (crates/git-lfs-delta-server/src/lib.rs).
pub mod Reading
pub mod Offers
use git_cdc.Common.{
  ℕ, ◌+◌, Bool, true, false, not, List, [], ◌∷◌, ◌++◌, Option, none, some, length, ltb, codes,
  if◌then◌else◌, Result, ok, err, map_err,
}
use git_cdc.Core.Digest.{ObjectOid, display}
use git_cdc.Protocol.{TransferKind, basic, cdc, select_transfer}
use git_cdc.Protocol.Messages.{
  Operation, upload, download, BatchObject, BatchRequest, LfsAction, BatchObjectError,
  BatchObjectResponse, BatchResponse,
}
use git_cdc.Server.Auth.Types.{Access, read, write}
use git_cdc.Server.Error.{ApiError, api_error}
use git_cdc.Server.Handlers.Types.{Deployment, Request, Answer, admit}
use git_cdc.Server.Handlers.Upload.{object_key}
use git_cdc.Server.Locks.{Identity}
use git_cdc.Server.Lookup.{repository_id}
use git_cdc.Server.Schema.{Db, ObjectKey}
use git_cdc.Server.Service.{Handler, pure, fail, ◌>>=◌, ◌>>◌, respond, require, ok_or, transaction}
use git_cdc.Server.Tables.{find_object}
use git_cdc.Server.Tx.{select}

abbrev pub access_of : Operation → Access
access_of upload = write
access_of download = read

-- `SELECT EXISTS(SELECT 1 FROM objects WHERE ...)`
abbrev pub object_exists : ObjectKey → Db → Bool
object_exists key db = elim (find_object key db.objects) [ none ↦ false | some o ↦ true ]

abbrev pub unacceptable : ApiError
unacceptable = api_error 406 "the client offered no supported Git LFS transfer mechanism"

-- The segments that a CDC transfer adds.
abbrev cdc_segment : TransferKind → List (List ℕ)
cdc_segment basic = []
cdc_segment cdc = codes "cdc" ∷ []

module _ (d : Deployment) where
  abbrev pub Action : Type 0
  Action = LfsAction d.urls.Url

  abbrev pub ObjectResponse : Type 0
  ObjectResponse = BatchObjectResponse d.urls.Url

  unfoldable pub action_url : List ℕ → List ℕ → ObjectOid → TransferKind → Result Action ApiError
  action_url owner repository oid transfer = elim (d.urls.with_segments d.base_url segments) [
    | none ↦ err (api_error 500 "invalid base URL")
    | some url ↦ ok (record { href = url; header = []; expires_at = none })
  ]
    where
      segments : List (List ℕ)
      segments =
          owner
          ∷ repository
          ∷ codes "info"
          ∷ codes "lfs"
          ∷ codes "objects"
          ∷ display d.hex oid
          ∷ cdc_segment transfer

  abbrev with_authorization : Identity → Action → Action
  with_authorization identity action = record action {
    header = (codes "Authorization", identity.authorization) ∷ [];
  }

  abbrev plain_response :
      BatchObject → List (List ℕ × Action) → Option BatchObjectError → ObjectResponse
  plain_response object actions error = record {
    oid = object.oid;
    size = object.size;
    actions = actions;
    error = error;
  }

  abbrev pub not_found_error : BatchObjectError
  not_found_error = record { code = 404; message = codes "object not found" }

  module _ (request : Request) (identity : Identity) (transfer : TransferKind) where
    abbrev authorized_action : List ℕ → BatchObject → Answer d ObjectResponse
    authorized_action name object = do
      action ← respond (action_url request.owner request.repository object.oid transfer)
      pure (plain_response object ((name, with_authorization identity action) ∷ []) none)

    -- `match (request.operation, exists)`
    unfoldable pub respond_object : Operation → Bool → BatchObject → Answer d ObjectResponse
    respond_object upload false object = authorized_action (codes "upload") object
    respond_object download true object = authorized_action (codes "download") object
    respond_object download false object = pure (plain_response object [] (some not_found_error))
    respond_object upload true object = pure (plain_response object [] none)

    unfoldable pub respond_objects :
        Operation → ℕ → List BatchObject → Answer d (List ObjectResponse)
    respond_objects operation id [] = pure []
    respond_objects operation id (object ∷ objects) = do
      there ← transaction (select (object_exists (object_key id object.oid)))
      first ← respond_object operation there object
      rest ← respond_objects operation id objects
      pure (first ∷ rest)

  unfoldable pub batch : Request → BatchRequest → Answer d (BatchResponse d.urls.Url)
  batch request body = do
    require (not (ltb 1000 (length body.objects)))
        (api_error 413 "batch contains more than 1,000 objects")
    identity ← admit d request (access_of body.operation)
    id ← transaction (repository_id request.owner request.repository)
    transfer ← respond (map_err (λ _. unacceptable) (select_transfer body.transfers))
    objects ← respond_objects request identity transfer body.operation id body.objects
    pure (record { transfer = transfer; objects = objects })
