-- ===== src/Server/Handlers/Tests.antt =====
-- The handlers over a small deployment: a store in memory, a development token, and an object of
-- three bytes in one chunk.
use git_cdc.Common.{
  ℕ, ◌≡◌, refl, false, List, [], ◌∷◌, Option, none, some, Result, ok, err, ap, length, codes,
  list_eq,
}
use git_cdc.Core.Digest.{ObjectOid, Hex, from_str, display, object_oid_eq, chunk_id_eq}
use git_cdc.Core.Manifest.{ObjectManifest, v1, validate, check_chunks, check_chunk}
use git_cdc.Core.Manifest.Equality.{version_eq, profile_eq, descriptor_eq, chunks_eq, manifest_eq}
use git_cdc.Core.Profile.{fast_cdc_v1}
use git_cdc.Core.Stream.{Cdc, new, next_item, drain, finish, completed_manifest}
use git_cdc.Protocol.{basic, select_transfer}
use git_cdc.Protocol.Messages.{
  download, BatchRequest, BatchResponse, BeginUploadRequest, BeginUploadResponse,
}
use git_cdc.Server.Auth.{development_token, authenticate_development, authenticate_by, authenticate}
use git_cdc.Server.Auth.Types.{strip_prefix}
use git_cdc.Server.Error.{ApiError, text}
use git_cdc.Server.Handlers.Types.{Deployment, Request, UrlCrate, admit, enter}
use git_cdc.Server.Handlers.Upload.{
  missing_from, assemble, register_and_store_chunk, begin_cdc, upload_cdc_chunk, finalize_open,
  finalize_cdc, object_key,
}
use git_cdc.Server.Handlers.Upload.Planning.{Planned, begin_cdc-Planned}
use git_cdc.Server.Handlers.Upload.Storing.{Taken, upload_cdc_chunk-Taken}
use git_cdc.Server.Handlers.Upload.Finalizing.{Finalized, finalize_cdc-Finalized}
use git_cdc.Server.Handlers.Download.{Download, reconstruct, stage_object, download_basic}
use git_cdc.Server.Handlers.Download.Serving.{Served, download_basic-Served}
use git_cdc.Server.Handlers.Basic.{
  Body, announces_too_long, copy_body, ensure_upload_session, store_chunks, upload_staged,
  upload_basic,
}
use git_cdc.Server.Handlers.Basic.Uploading.{BasicUpload, upload_basic-BasicUpload}
use git_cdc.Server.Handlers.Batch.{action_url, respond_object, respond_objects, batch}
use git_cdc.Server.Handlers.Batch.Offers.{Offered, batch-Offered}
use git_cdc.Server.Lookup.{parse_oid, find_repository, repository_id, load_manifest}
use git_cdc.Server.Schema.{Db, open_state, object_key_eq, chunk_key_eq}
use git_cdc.Server.Samples.{tables}
use git_cdc.Server.Service.{AppState, ServiceMetrics, transaction, on_store, file_operation}
use git_cdc.Server.Tables.{
  find_session, find_object, find_chunk, has_chunk, update_sessions, add_reference,
}
use git_cdc.Server.Upload.{
  expire_stale, insert_session, open_session, load_open_upload, is_finalizable,
  load_finalizable_upload, insert_chunk, upsert_chunk, insert_session_chunk, register_chunk,
}
use git_cdc.Server.Publish.{
  ensure_chunk, ensure_chunks, insert_object, insert_object_chunk, link_chunk, link_chunks,
  finalize_session, publish_open, publish, publish_manifest,
}
use git_cdc.Server.World.{in_transaction}
use git_cdc.Storage.{
  not_found, verify_digest, chunk_path, put_result, put_verified, get_result, get_verified,
  exists_result, exists,
}
use git_cdc.Storage.Memory.{Files, lookup, memory, in_memory, memory_Lawful, headed}
use git_cdc.Storage.Heads.{LawfulHead}

abbrev bytes : List ℕ
bytes = 7 ∷ 8 ∷ 9 ∷ []

-- The stand-in for SHA-256 is the length.
abbrev oid : ObjectOid
oid = record { bytes = 3 ∷ [] }

abbrev tiny : ObjectManifest
tiny = record {
  version = v1;
  profile = fast_cdc_v1;
  object_oid = oid;
  object_size = 3;
  chunks = record { id = record { bytes = bytes }; offset = 0; length = 3 } ∷ [];
}

abbrev hex : Hex
hex = record {
  FromHexError = Unit {0};
  encode = λ digest. digest;
  decode_to_slice = λ value n. ok (3 ∷ []);
}

abbrev one_chunk : Cdc
one_chunk = record {
  Reader = List ℕ;
  stream_cdc = λ source minimum average maximum.
      ok (record { offset = 0; length = length source; bytes = source }) ∷ [];
}

abbrev segments : UrlCrate
segments = record { Url = List (List ℕ); with_segments = λ base added. some added }

abbrev deployment : Deployment
deployment = record {
  backing = in_memory;
  hex = hex;
  digest_text = λ e. text "not an oid";
  authentication = development_token (1 ∷ []);
  cdc = one_chunk;
  staged = λ staged_bytes. staged_bytes;
  urls = segments;
  base_url = [];
}

abbrev request : Request
request = record {
  clock = record { lookup = 5; retain = 6; insert = 7 };
  authorization = some (codes "Bearer t");
  owner = [];
  repository = [];
}

abbrev oid_text : List ℕ
oid_text = codes "0000000000000000000000000000000000000000000000000000000000000003"

abbrev zeros : ServiceMetrics
zeros = record {
  logical_uploaded = 0;
  logical_downloaded = 0;
  chunks_received = 0;
  auth_cache_hits = 0;
  auth_cache_misses = 0;
  forgejo_requests = 0;
  http_requests = 0;
  http_failures = 0;
  in_flight = 0;
}

abbrev state : Db → Files → AppState Files
state db files = record {
  world = record { db = db; store = files; faults = [] };
  metrics = zeros;
  entries = [];
  basic_transfers_closed = false;
  data_requests_closed = false;
  file_faults = [];
}

abbrev files : Files
files = (put_verified in_memory 1 (record { bytes = bytes }) bytes []).1

abbrev published : Db
published = record (tables [] [] [] []) {
  objects = record { key = object_key 1 oid; size = 3; manifest = some tiny } ∷ [];
}

abbrev downloaded : Result Download ApiError × AppState Files
downloaded = download_basic deployment request oid_text (state published files)

download_basic-runs : downloaded ≡ (ok (record { content_length = 3; body = bytes }), downloaded.1)
unfolding download_basic stage_object reconstruct enter admit authenticate authenticate_by
    authenticate_development strip_prefix parse_oid from_str transaction in_transaction
    repository_id find_repository load_manifest find_object object_key_eq object_oid_eq list_eq
    validate check_chunks check_chunk file_operation on_store get_verified get_result verify_digest
    chunk_path put_verified put_result
download_basic-runs = refl

download_basic-Served_example :
    Served deployment request oid_text
      (state published files)
      downloaded.1
      (record { content_length = 3; body = bytes })
download_basic-Served_example =
    download_basic-Served deployment request oid_text (state published files) downloaded.1
      (record { content_length = 3; body = bytes }) download_basic-runs

abbrev uploading : Db
uploading =
    tables
      (record {
        id = 70;
        object = object_key 1 oid;
        object_size = 3;
        manifest = some tiny;
        state = open_state;
        expires_at = 1000;
      }
        ∷ [])
      [] [] []

abbrev finalized_run : Result (Unit {0}) ApiError × AppState Files
finalized_run = finalize_cdc deployment request 10 11 oid_text 70 (state uploading files)

finalize_cdc-runs : finalized_run ≡ (ok tt, finalized_run.1)
unfolding finalize_cdc finalize_open assemble enter admit authenticate authenticate_by
    authenticate_development strip_prefix parse_oid from_str transaction in_transaction
    repository_id find_repository load_finalizable_upload is_finalizable find_session find_object
    find_chunk has_chunk object_key_eq object_oid_eq chunk_key_eq chunk_id_eq list_eq validate
    check_chunks check_chunk on_store get_verified get_result verify_digest chunk_path put_verified
    put_result publish_manifest publish publish_open ensure_chunks ensure_chunk insert_chunk
    insert_object link_chunks link_chunk insert_object_chunk add_reference finalize_session
    update_sessions
finalize_cdc-runs = refl

finalize_cdc-Finalized_example :
    Finalized deployment request 10 11 oid_text 70 (state uploading files) finalized_run.1
finalize_cdc-Finalized_example =
    finalize_cdc-Finalized deployment request 10 11 oid_text 70 (state uploading files)
      finalized_run.1 finalize_cdc-runs

abbrev taken_run : Result (Unit {0}) ApiError × AppState Files
taken_run = upload_cdc_chunk deployment request 10 oid_text 70 0 bytes (state uploading [])

upload_cdc_chunk-runs : taken_run ≡ (ok tt, taken_run.1)
unfolding upload_cdc_chunk register_and_store_chunk enter admit authenticate authenticate_by
    authenticate_development strip_prefix parse_oid from_str transaction in_transaction
    repository_id find_repository load_open_upload find_session find_chunk has_chunk object_key_eq
    object_oid_eq chunk_key_eq chunk_id_eq list_eq on_store verify_digest chunk_path put_verified
    put_result register_chunk upsert_chunk insert_chunk insert_session_chunk
upload_cdc_chunk-runs = refl

upload_cdc_chunk-Taken_example :
    Taken deployment request 10 oid_text 70 0 bytes (state uploading []) taken_run.1
upload_cdc_chunk-Taken_example =
    upload_cdc_chunk-Taken deployment request 10 oid_text 70 0 bytes (state uploading [])
      taken_run.1 upload_cdc_chunk-runs

abbrev proposal : BeginUploadRequest
proposal = record { protocol_version = 1; manifest = tiny }

abbrev plan : BeginUploadResponse
plan = record {
  protocol_version = 1;
  upload_id = 80;
  missing_chunk_indexes = 0 ∷ [];
  expires_at = 86410;
}

abbrev empty : Db
empty = tables [] [] [] []

abbrev begun : Result BeginUploadResponse ApiError × AppState Files
begun = begin_cdc deployment request 10 80 oid_text proposal (state empty [])

begin_cdc-runs : begun ≡ (ok plan, begun.1)
unfolding begin_cdc missing_from admit authenticate authenticate_by authenticate_development
    strip_prefix parse_oid from_str transaction in_transaction repository_id find_repository
    open_session expire_stale insert_session find_session update_sessions manifest_eq version_eq
    profile_eq descriptor_eq chunks_eq object_key_eq object_oid_eq chunk_id_eq list_eq validate
    check_chunks check_chunk on_store exists exists_result chunk_path
begin_cdc-runs = refl

headed_ok :
    (o : Option (List ℕ)) (fs : Files) → (headed o fs).0 ≡ ok tt → (x : List ℕ) × (o ≡ some x)
headed_ok none fs h = absurd (cc)
headed_ok (some x) fs h = (x, refl)

headed-none : (o : Option (List ℕ)) (fs : Files) → (headed o fs).0 ≡ err not_found → o ≡ none
headed-none none fs h = refl
headed-none (some x) fs h = absurd (cc)

headed_same : (o : Option (List ℕ)) (fs : Files) → (headed o fs).1 ≡ fs
headed_same none fs = refl
headed_same (some x) fs = refl

abbrev memory_LawfulHead : LawfulHead memory memory_Lawful
memory_LawfulHead = record {
  head_holds = λ p fs h. headed_ok (lookup p fs) fs h;
  head_misses = λ p fs h. headed-none (lookup p fs) fs h;
  head_keeps = λ p q fs. ap (lookup q) (headed_same (lookup p fs) fs);
}

begin_cdc-Planned_example :
    Planned deployment memory_Lawful memory_LawfulHead request 10 80 oid_text proposal
      (state empty [])
      begun.1
      plan
begin_cdc-Planned_example =
    begin_cdc-Planned deployment memory_Lawful memory_LawfulHead request 10 80 oid_text proposal
      (state empty []) begun.1 plan begin_cdc-runs

abbrev body : Body
body = record { bytes = bytes; broken = false }

abbrev uploaded : Result (Unit {0}) ApiError × AppState Files
uploaded = upload_basic deployment request 10 11 80 oid_text (some 3) body (state empty [])

upload_basic-runs : uploaded ≡ (ok tt, uploaded.1)
unfolding upload_basic upload_staged store_chunks ensure_upload_session copy_body announces_too_long
    register_and_store_chunk new next_item drain finish completed_manifest enter admit authenticate
    authenticate_by authenticate_development strip_prefix parse_oid from_str transaction
    in_transaction repository_id find_repository file_operation open_session expire_stale
    insert_session find_session update_sessions manifest_eq version_eq profile_eq descriptor_eq
    chunks_eq is_finalizable find_object find_chunk has_chunk object_key_eq object_oid_eq
    chunk_key_eq chunk_id_eq list_eq validate check_chunks check_chunk on_store verify_digest
    chunk_path put_verified put_result publish_manifest publish publish_open ensure_chunks
    ensure_chunk insert_chunk insert_object link_chunks link_chunk insert_object_chunk add_reference
    finalize_session register_chunk upsert_chunk insert_session_chunk
upload_basic-runs = refl

upload_basic-BasicUpload_example :
    BasicUpload deployment request 10 11 80 oid_text body empty uploaded.1.world.db
upload_basic-BasicUpload_example =
    upload_basic-BasicUpload deployment request 10 11 80 oid_text (some 3) body (state empty [])
      uploaded.1 upload_basic-runs

-- A download of an object that is there, and of one that is not.
abbrev wanted : BatchRequest
wanted = record {
  operation = download;
  transfers = [];
  reference = none;
  objects =
      record { oid = oid; size = 3 } ∷ record { oid = record { bytes = 4 ∷ [] }; size = 4 } ∷ [];
}

abbrev offer : BatchResponse (List (List ℕ))
offer = record {
  transfer = basic;
  objects =
      record {
        oid = oid;
        size = 3;
        actions =
            (
              codes "download",
              record {
                href = [] ∷ [] ∷ codes "info" ∷ codes "lfs" ∷ codes "objects" ∷ (3 ∷ []) ∷ [];
                header = (codes "Authorization", codes "Bearer t") ∷ [];
                expires_at = none;
              },
            )
            ∷ [];
        error = none;
      }
      ∷ record {
        oid = record { bytes = 4 ∷ [] };
        size = 4;
        actions = [];
        error = some (record { code = 404; message = codes "object not found" });
      }
      ∷ [];
}

abbrev offered : Result (BatchResponse (List (List ℕ))) ApiError × AppState Files
offered = batch deployment request wanted (state published [])

batch-runs : offered ≡ (ok offer, offered.1)
unfolding batch respond_objects respond_object action_url display select_transfer admit authenticate
    authenticate_by authenticate_development strip_prefix transaction in_transaction repository_id
    find_repository find_object object_key_eq object_oid_eq list_eq
batch-runs = refl

batch-Offered_example : Offered deployment request wanted (state published []) offered.1 offer
batch-Offered_example =
    batch-Offered deployment request wanted (state published []) offered.1 offer batch-runs
