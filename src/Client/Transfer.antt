-- ===== src/Client/Transfer.antt =====
-- crates/git-lfs-delta-client/src/transfer.rs: the Git LFS custom-transfer protocol, a state machine
-- over lines of JSON. A line is a list of bytes, or the error of reading it. A path is its text, as
-- `to_string_lossy` gives it, and an error's code a natural number.
pub mod Answers
pub mod Discipline
mod Tests
use git_cdc.Common.{
  ℕ, Bool, true, false, List, [], ◌∷◌, Option, none, some, Result, ok, err, map_err,
}
use git_cdc.Core.Digest.{ObjectOid}

pub record TransferAction : Type 0 where
  pub href : List ℕ
  pub header : List (List ℕ × List ℕ)

pub record UploadRequest : Type 0 where
  pub oid : ObjectOid
  pub size : ℕ
  pub path : List ℕ
  pub action : Option TransferAction

pub record DownloadRequest : Type 0 where
  pub oid : ObjectOid
  pub size : ℕ
  pub action : Option TransferAction

pub record DownloadResult : Type 0 where
  pub path : List ℕ
  pub bytes_transferred : ℕ

pub record BackendError : Type 0 where
  pub code : ℕ
  pub message : List ℕ

pub data InputMessage : Type 0 where
  init : List ℕ → List ℕ → Bool → ℕ → InputMessage
  upload_message : UploadRequest → InputMessage
  download_message : DownloadRequest → InputMessage
  terminate : InputMessage

-- What is written: the empty object, or an `OutputMessage`.
pub data Output : Type 0 where
  empty_object : Output
  progress : ObjectOid → ℕ → ℕ → Output
  complete : ObjectOid → Option (List ℕ) → Option BackendError → Output

-- `TransferBackend`, over a state of its own.
pub record TransferBackend : Type 1 where
  pub State : Type 0
  pub upload : UploadRequest → State → Result ℕ BackendError × State
  pub download : DownloadRequest → State → Result DownloadResult BackendError × State

-- `std::io` and `serde_json`: `from_str` decodes a line, `to_writer` writes a value, `write_all` and
-- `flush` are the writer's.
pub record Streams : Type 1 where
  pub IoError : Type 0
  pub JsonError : Type 0
  pub Writer : Type 0
  pub from_str : List ℕ → Result InputMessage JsonError
  pub to_writer : Output → Writer → Result (Unit {0}) IoError × Writer
  pub write_all : List ℕ → Writer → Result (Unit {0}) IoError × Writer
  pub flush : Writer → Result (Unit {0}) IoError × Writer

module _ (streams : Streams) where
  open streams use {IoError, JsonError, Writer, from_str, to_writer, write_all, flush}

  pub data TransferProtocolError : Type 0 where
    read_error : IoError → TransferProtocolError
    decode_error : JsonError → TransferProtocolError
    write_error : IoError → TransferProtocolError
    not_initialized already_initialized : TransferProtocolError

  -- `write_json_line`
  pub write_json_line : Output → Writer → Result (Unit {0}) TransferProtocolError × Writer
  write_json_line value w =
      let (r, w1) = to_writer value w in
      let (r1, w2) = write_all (10 ∷ []) w1 in
      let (r2, w3) = flush w2 in
      elim r [
        | err e ↦ (err (write_error e), w1)
        | ok _ ↦ elim r1 [ err e ↦ (err (write_error e), w2) | ok _ ↦ (map_err write_error r2, w3) ]
      ]

  pub emit_progress : ObjectOid → ℕ → Writer → Result (Unit {0}) TransferProtocolError × Writer
  emit_progress oid bytes w = write_json_line (progress oid bytes bytes) w

  pub emit_complete :
      ObjectOid
      → Option (List ℕ)
      → Option BackendError
      → Writer
      → Result (Unit {0}) TransferProtocolError × Writer
  emit_complete oid path error w = write_json_line (complete oid path error) w

  pub require_initialized : Bool → Result (Unit {0}) TransferProtocolError
  require_initialized true = ok tt
  require_initialized false = err not_initialized

  -- The answer to a transfer that succeeded.
  pub emit_success :
      ObjectOid → ℕ → Option (List ℕ) → Writer → Result (Unit {0}) TransferProtocolError × Writer
  emit_success oid bytes path w =
      let (r, w') = emit_progress oid bytes w in
      elim r [ err e ↦ (err e, w') | ok _ ↦ emit_complete oid path none w' ]

  pub emit_upload :
      UploadRequest
      → Result ℕ BackendError
      → Writer
      → Result (Unit {0}) TransferProtocolError × Writer
  emit_upload request (ok bytes) w = emit_success request.oid bytes none w
  emit_upload request (err error) w = emit_complete request.oid none (some error) w

  pub emit_download :
      DownloadRequest
      → Result DownloadResult BackendError
      → Writer
      → Result (Unit {0}) TransferProtocolError × Writer
  emit_download request (ok result) w =
      emit_success request.oid result.bytes_transferred (some result.path) w
  emit_download request (err error) w = emit_complete request.oid none (some error) w

  module _ (backend : TransferBackend) where
    open backend use {State, upload, download}

    pub record Agent : Type 0 where
      pub writer : Writer
      pub state : State

    -- The state after an answer: it goes on, initialized, if the answer could be written.
    answered :
        Result (Unit {0}) TransferProtocolError × Writer
        → State
        → Result (Option Bool) TransferProtocolError × Agent
    answered (err e, w) b = (err e, record { writer = w; state = b })
    answered (ok _, w) b = (ok (some true), record { writer = w; state = b })

    -- One message: `some` of `initialized` for the next one, or `none` to return.
    pub step : Bool → InputMessage → Agent → Result (Option Bool) TransferProtocolError × Agent
    step true (init o r c n) a = (err already_initialized, a)
    step false (init o r c n) a = answered (write_json_line empty_object a.writer) a.state
    step initialized (upload_message request) a = elim (require_initialized initialized) [
      | err e ↦ (err e, a)
      | ok _ ↦ let (r, b) = upload request a.state in answered (emit_upload request r a.writer) b
    ]
    step initialized (download_message request) a = elim (require_initialized initialized) [
      | err e ↦ (err e, a)
      | ok _ ↦
          let (r, b) = download request a.state in answered (emit_download request r a.writer) b
    ]
    step initialized terminate a = (ok none, a)

    -- The loop of `run_transfer_protocol`, from a line on.
    pub run :
        List (Result (List ℕ) IoError)
        → Bool
        → Agent
        → Result (Unit {0}) TransferProtocolError × Agent
    run [] initialized a = (ok tt, a)
    run (err e ∷ lines) initialized a = (err (read_error e), a)
    run (ok line ∷ lines) initialized a = elim (from_str line) [
      | err e ↦ (err (decode_error e), a)
      | ok message ↦
          let (r, a') = step initialized message a in
          elim r [
            | err e ↦ (err e, a')
            | ok next ↦ elim next [ none ↦ (ok tt, a') | some i ↦ run lines i a' ]
          ]
    ]

    pub run_transfer_protocol :
        List (Result (List ℕ) IoError) → Agent → Result (Unit {0}) TransferProtocolError × Agent
    run_transfer_protocol lines a = run lines false a
