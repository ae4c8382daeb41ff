-- ===== src/Client/Backend/Retry.antt =====
-- The retry loops of crates/git-lfs-delta-client/src/backend.rs: `begin_upload` and
-- `finalize_upload`, which fail at once in the last round, and `upload_chunk_with_retry` and the
-- download of a chunk, which remember the last error.
pub mod Decided
use git_cdc.Common.{
  ℕ, zero, suc, ◌+◌, Bool, true, false, ◌&&◌, List, [], ◌∷◌, ◌++◌, Option, none, some, Result, ok,
  err, codes, map_err, ltb, if◌then◌else◌,
}
use git_cdc.Client.Backend.Types.{
  Platform, HttpRequest, Method, get_method, post_method, put_method, Response, Reply, responded,
  transport, failure, retryable_status, is_success, backoff, delay_of,
}
use git_cdc.Client.Transfer.{TransferAction, BackendError}
use git_cdc.Protocol.Messages.{BeginUploadRequest, BeginUploadResponse}

-- The texts of one loop's errors.
pub record Texts : Type 0 where
  pub refused : List ℕ
  pub broken : List ℕ
  pub exhausted : List ℕ

module _ (platform : Platform) where
  open platform use {State, Url, send, sleep, parse_url, extend_segments, number_text, uuid_text}

  unfoldable pub child_url : List ℕ → List (List ℕ) → Result Url BackendError
  child_url base children = elim (parse_url base) [
    | err error ↦ err (failure (codes "invalid action URL: " ++ error))
    | ok url ↦ elim (extend_segments url children) [
      | none ↦ err (failure (codes "action URL cannot contain path segments"))
      | some child ↦ ok child
    ]
  ]

  abbrev pub Outcome : Type 0
  Outcome = Result Response BackendError × State

  module _ (texts : Texts) where
    -- What a round makes of its reply; `again` is the next round, after a wait.
    unfoldable pub strict_reply : (ℕ → Outcome) → ℕ → Reply → State → Outcome
    strict_reply again attempt (responded r) s =
        if is_success r.status
        then (ok r, s)
        else if retryable_status r.status && ltb attempt 2
        then again (delay_of r attempt)
        else (err (failure (texts.refused ++ number_text r.status)), s)
    strict_reply again attempt (transport error) s =
        if ltb attempt 2
        then again (backoff attempt)
        else (err (failure (texts.broken ++ error)), s)

    -- Here `again` is given the error to remember, too.
    unfoldable pub patient_reply : (List ℕ → ℕ → Outcome) → ℕ → Reply → State → Outcome
    patient_reply again attempt (responded r) s =
        if is_success r.status
        then (ok r, s)
        else if retryable_status r.status
        then again (codes "HTTP " ++ number_text r.status) (delay_of r attempt)
        else (err (failure (texts.refused ++ number_text r.status)), s)
    patient_reply again attempt (transport error) s = again error (backoff attempt)

    module _ (request : HttpRequest Url) where
      -- The rounds that are left, and the number of this one.
      unfoldable pub send_strictly : ℕ → ℕ → State → Outcome
      send_strictly zero attempt s = (err (failure texts.exhausted), s)
      send_strictly (suc left) attempt s =
          let (reply, s1) = send request s in
          strict_reply (λ delay. send_strictly left (attempt + 1) (sleep delay s1)) attempt reply s1

      -- The wait that comes before the next round, if there is one.
      abbrev pub pause : ℕ → ℕ → State → State
      pause attempt delay s = if ltb attempt 2 then sleep delay s else s

      -- The rounds that are left, the number of this one, and the last error.
      unfoldable pub send_patiently : ℕ → ℕ → List ℕ → State → Outcome
      send_patiently zero attempt last_error s = (err (failure (texts.exhausted ++ last_error)), s)
      send_patiently (suc left) attempt last_error s =
          let (reply, s1) = send request s in
          patient_reply
            (λ error delay. send_patiently left (attempt + 1) error (pause attempt delay s1))
            attempt reply s1

  abbrev begin_texts : Texts
  begin_texts = record {
    refused = codes "could not begin CDC upload: HTTP ";
    broken = codes "could not begin CDC upload: ";
    exhausted = codes "could not begin CDC upload after retries";
  }

  abbrev pub parsed_plan :
      Result Response BackendError × State → Result BeginUploadResponse BackendError × State
  parsed_plan (err e, s) = (err e, s)
  parsed_plan (ok response, s) = elim response.body [
    | err error ↦ (err (failure (codes "invalid CDC upload plan: " ++ error)), s)
    | ok body ↦ (
      map_err (λ error. failure (codes "invalid CDC upload plan: " ++ error))
          (platform.parse_plan body),
      s,
    )
  ]

  pub begin_upload :
      TransferAction → BeginUploadRequest → State → Result BeginUploadResponse BackendError × State
  begin_upload action begin s = parsed_plan (
      send_strictly begin_texts
        (record {
          method = post_method;
          url = platform.url_of_href action.href;
          header = action.header;
          content = platform.json_of_begin begin;
        })
        3 0 s)

  abbrev finalize_texts : Texts
  finalize_texts = record {
    refused = codes "could not finalize CDC upload: HTTP ";
    broken = codes "could not finalize CDC upload: ";
    exhausted = codes "could not finalize CDC upload after retries";
  }

  abbrev done : Result Response BackendError × State → Result (Unit {0}) BackendError × State
  done (err e, s) = (err e, s)
  done (ok response, s) = (ok tt, s)

  pub finalize_upload : TransferAction → ℕ → State → Result (Unit {0}) BackendError × State
  finalize_upload action upload_id s =
      elim (child_url action.href (uuid_text upload_id ∷ codes "finalize" ∷ [])) [
        | err e ↦ (err e, s)
        | ok url ↦ done (
            send_strictly finalize_texts
              (record { method = post_method; url = url; header = action.header; content = [] }) 3 0
              s)
      ]

  abbrev upload_texts : Texts
  upload_texts = record {
    refused = codes "chunk upload failed with HTTP ";
    broken = [];
    exhausted = codes "chunk upload failed after retries: ";
  }

  pub upload_chunk_with_retry :
      TransferAction → ℕ → ℕ → List ℕ → State → Result (Unit {0}) BackendError × State
  upload_chunk_with_retry action upload_id index bytes s =
      elim (child_url action.href (uuid_text upload_id ∷ codes "chunks" ∷ number_text index ∷ [])) [
        | err e ↦ (err e, s)
        | ok url ↦ done (
            send_patiently upload_texts
              (record { method = put_method; url = url; header = action.header; content = bytes }) 3
              0 (codes "unknown transport failure") s)
      ]
