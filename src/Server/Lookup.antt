-- ===== src/Server/Lookup.antt =====
-- What the handlers look up (crates/git-lfs-delta-server/src/lib.rs): `parse_oid`, `repository_id`
-- and `load_manifest`.
pub mod Reading
pub mod RoundTrip
use Prim.Native.String.{String}
use git_cdc.Common.{
  ℕ, List, [], ◌∷◌, Option, none, some, ◌&&◌, list_eq, if◌then◌else◌, Result, ok, err, map_err,
}
use git_cdc.Core.Digest.{ObjectOid, Hex, DigestParseError, from_str}
use git_cdc.Core.Manifest.{ObjectManifest}
use git_cdc.Server.Error.{ApiError, Message, api_error, integrity}
use git_cdc.Server.Schema.{Db, ObjectKey, Repository}
use git_cdc.Server.Tables.{find_object}
use git_cdc.Server.Tx.{Tx, ◌>>=◌, select, or_fail, api}

-- `parse_oid`, where `to_string` is the text of the error.
unfoldable pub parse_oid :
    (hex : Hex) → (DigestParseError hex.FromHexError → Message) → List ℕ → Result ObjectOid ApiError
parse_oid hex to_string value =
    map_err (λ e. record { status = 400; message = to_string e }) (from_str hex value)

unfoldable pub find_repository : List ℕ → List ℕ → List Repository → Option ℕ
find_repository owner name [] = none
find_repository owner name (r ∷ rs) =
    if list_eq r.owner owner && list_eq r.name name
    then some r.id
    else find_repository owner name rs

unfoldable pub repository_id : List ℕ → List ℕ → Tx ℕ
repository_id owner repository = do
  row ← select (λ db. find_repository owner repository db.repositories)
  or_fail row (api (api_error 404 "repository not found"))

unfoldable pub load_manifest : ObjectKey → Tx ObjectManifest
load_manifest object = do
  row ← select (λ db. find_object object db.objects)
  found ← or_fail row (api (api_error 404 "object not found"))
  or_fail found.manifest (api integrity)
