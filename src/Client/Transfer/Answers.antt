-- ===== src/Client/Transfer/Answers.antt =====
-- Each transfer is answered once, in order, whether it succeeds or not.
use git_cdc.Common.{
  ℕ, Bool, true, false, List, [], ◌∷◌, ◌++◌, Option, none, some, Result, ok, err, map, ◌≡◌, refl,
  ap, sym, ◌∙◌,
}
use mathlib.Core.List.{append_assoc, append-nil}
use git_cdc.Core.Digest.{ObjectOid}
use git_cdc.Client.Transfer.{
  UploadRequest, DownloadRequest, DownloadResult, BackendError, InputMessage, init, upload_message,
  download_message, Output, empty_object, progress, complete, TransferBackend, Streams,
  write_json_line, emit_progress, emit_complete, require_initialized, emit_success, emit_upload,
  emit_download, Agent, answered, step, run, run_transfer_protocol,
}

pub data Transfer : Type 0 where
  uploading : UploadRequest → Transfer
  downloading : DownloadRequest → Transfer

abbrev pub message_of : Transfer → InputMessage
message_of (uploading q) = upload_message q
message_of (downloading q) = download_message q

-- A writer that takes everything: what it has been given is a list of values, one to a line.
pub record Reliable (streams : Streams) : Type 0 where
  pub written : streams.Writer → List Output
  pub to_writer_ok : (v : Output) (w : streams.Writer) → (streams.to_writer v w).0 ≡ ok tt
  pub write_all_ok : (bytes : List ℕ) (w : streams.Writer) → (streams.write_all bytes w).0 ≡ ok tt
  pub flush_ok : (w : streams.Writer) → (streams.flush w).0 ≡ ok tt
  pub appended :
      (v : Output) (w : streams.Writer)
      → written (streams.flush (streams.write_all (10 ∷ []) (streams.to_writer v w).1).1).1
        ≡ written w ++ (v ∷ [])

abbrev pub answer_upload : UploadRequest → Result ℕ BackendError → List Output
answer_upload q (ok n) = progress q.oid n n ∷ complete q.oid none none ∷ []
answer_upload q (err e) = complete q.oid none (some e) ∷ []

abbrev pub answer_download : DownloadRequest → Result DownloadResult BackendError → List Output
answer_download q (ok d) =
    progress q.oid d.bytes_transferred d.bytes_transferred ∷ complete q.oid (some d.path) none ∷ []
answer_download q (err e) = complete q.oid none (some e) ∷ []

module _ (backend : TransferBackend) where
  -- What is written for a transfer, and the backend after it.
  abbrev pub answer : Transfer → backend.State → List Output × backend.State
  answer (uploading q) b = (answer_upload q (backend.upload q b).0, (backend.upload q b).1)
  answer (downloading q) b = (answer_download q (backend.download q b).0, (backend.download q b).1)

  abbrev pub answers : List Transfer → backend.State → List Output × backend.State
  answers [] b = ([], b)
  answers (t ∷ ts) b =
      ((answer t b).0 ++ (answers ts (answer t b).1).0, (answers ts (answer t b).1).1)

module _ (streams : Streams) where
  -- The lines are read, and decode to the messages.
  abbrev pub Reads : List (Result (List ℕ) streams.IoError) → List InputMessage → Type 0
  Reads [] [] = Unit {0}
  Reads [] (m ∷ ms) = ⊥
  Reads (err e ∷ ls) ms = ⊥
  Reads (ok l ∷ ls) [] = ⊥
  Reads (ok l ∷ ls) (m ∷ ms) = (streams.from_str l ≡ ok m) × Reads ls ms

  module _ (reliable : Reliable streams) where
    abbrev after : Output → streams.Writer → streams.Writer
    after v w = (streams.flush (streams.write_all (10 ∷ []) (streams.to_writer v w).1).1).1

    abbrev after_all : List Output → streams.Writer → streams.Writer
    after_all [] w = w
    after_all (v ∷ vs) w = after_all vs (after v w)

    after_all-append :
        (xs ys : List Output) (w : streams.Writer)
        → after_all (xs ++ ys) w ≡ after_all ys (after_all xs w)
    after_all-append [] ys w = refl
    after_all-append (x ∷ xs) ys w = after_all-append xs ys (after x w)

    written-after_all :
        (vs : List Output) (w : streams.Writer)
        → reliable.written (after_all vs w) ≡ reliable.written w ++ vs
    written-after_all [] w = sym (append-nil (reliable.written w))
    written-after_all (v ∷ vs) w =
        written-after_all vs (after v w)
        ∙ ap (λ xs. xs ++ vs) (reliable.appended v w)
        ∙ append_assoc (reliable.written w) (v ∷ []) vs

    write_json_line-after :
        (v : Output) (w : streams.Writer) → write_json_line streams v w ≡ (ok tt, after v w)
    unfolding write_json_line
    write_json_line-after v w = rw (
      write_json_line,
      reliable.to_writer_ok v w,
      reliable.write_all_ok (10 ∷ []) (streams.to_writer v w).1,
      reliable.flush_ok (streams.write_all (10 ∷ []) (streams.to_writer v w).1).1,
    )

    emit_success-after :
        (oid : ObjectOid) (n : ℕ) (path : Option (List ℕ)) (w : streams.Writer)
        → emit_success streams oid n path w
          ≡ (ok tt, after_all (progress oid n n ∷ complete oid path none ∷ []) w)
    unfolding emit_success emit_progress emit_complete
    emit_success-after oid n path w =
        let first = write_json_line-after (progress oid n n) w in
        rw (
          first,
          emit_success,
          first,
          write_json_line-after (complete oid path none) (after (progress oid n n) w),
        )

    emit_upload-after :
        (q : UploadRequest) (r : Result ℕ BackendError) (w : streams.Writer)
        → emit_upload streams q r w ≡ (ok tt, after_all (answer_upload q r) w)
    unfolding emit_upload emit_complete
    emit_upload-after q (ok n) w = emit_success-after q.oid n none w
    emit_upload-after q (err e) w = write_json_line-after (complete q.oid none (some e)) w

    emit_download-after :
        (q : DownloadRequest) (r : Result DownloadResult BackendError) (w : streams.Writer)
        → emit_download streams q r w ≡ (ok tt, after_all (answer_download q r) w)
    unfolding emit_download emit_complete
    emit_download-after q (ok d) w = emit_success-after q.oid d.bytes_transferred (some d.path) w
    emit_download-after q (err e) w = write_json_line-after (complete q.oid none (some e)) w

    module _ (backend : TransferBackend) where
      abbrev agent : streams.Writer → backend.State → Agent streams backend
      agent w b = record { writer = w; state = b }

      step-after :
          (t : Transfer) (w : streams.Writer) (b : backend.State)
          → step streams backend true (message_of t) (agent w b)
            ≡ (ok (some true), agent (after_all (answer backend t b).0 w) (answer backend t b).1)
      unfolding step answered require_initialized
      step-after (uploading q) w b = rw (emit_upload-after q (backend.upload q b).0 w, step)
      step-after (downloading q) w b = rw (emit_download-after q (backend.download q b).0 w, step)

      run-after :
          (ls : List (Result (List ℕ) streams.IoError)) (ts : List Transfer) (w : streams.Writer)
          (b : backend.State)
          → Reads ls (map message_of ts)
          → run streams backend ls true (agent w b)
            ≡ (ok tt, agent (after_all (answers backend ts b).0 w) (answers backend ts b).1)
      unfolding run
      run-after [] [] w b h = refl
      run-after [] (t ∷ ts) w b h = absurd h
      run-after (err e ∷ ls) ts w b h = absurd h
      run-after (ok l ∷ ls) [] w b h = absurd h
      run-after (ok l ∷ ls) (t ∷ ts) w b (e, h) =
          let first = step-after t w b in
          let w' = after_all (answer backend t b).0 w in
          rw (
            e,
            run,
            first,
            first,
            run-after ls ts w' (answer backend t b).1 h,
            after_all-append (answer backend t b).0 (answers backend ts (answer backend t b).1).0 w,
          )

      run-first :
          (o r : List ℕ) (c : Bool) (n : ℕ) (l : List ℕ) (ts : List Transfer)
          (ls : List (Result (List ℕ) streams.IoError)) (w : streams.Writer) (b : backend.State)
          → streams.from_str l ≡ ok (init o r c n)
          → Reads ls (map message_of ts)
          → run streams backend (ok l ∷ ls) false (agent w b) ≡ (
            ok tt,
            agent (after_all (empty_object ∷ (answers backend ts b).0) w) (answers backend ts b).1,
          )
      unfolding run step answered
      run-first o r c n l ts ls w b e h =
          let first = write_json_line-after empty_object w in
          rw (e, run, first, first, run-after ls ts (after empty_object w) b h)

      -- Suppose the writer takes everything, and the lines decode to an initialization and then to
      -- transfers. Then `run_transfer_protocol` returns `Ok`: it has written the empty object and, for
      -- each transfer in order, its progress and completion if the backend succeeded, and else its
      -- completion with the backend's error alone; the backend has made each transfer once, in order.
      pub run_transfer_protocol-answers :
          (o r : List ℕ) (c : Bool) (n : ℕ) (ts : List Transfer)
          (ls : List (Result (List ℕ) streams.IoError)) (a : Agent streams backend)
          → Reads ls (init o r c n ∷ map message_of ts)
          → let (result, a') = run_transfer_protocol streams backend ls a in
            (result ≡ ok tt)
            × (reliable.written a'.writer
                ≡ reliable.written a.writer ++ (empty_object ∷ (answers backend ts a.state).0))
            × (a'.state ≡ (answers backend ts a.state).1)
      unfolding run_transfer_protocol
      run_transfer_protocol-answers o r c n ts [] a h = absurd h
      run_transfer_protocol-answers o r c n ts (err e ∷ ls) a h = absurd h
      run_transfer_protocol-answers o r c n ts (ok l ∷ ls) a (e, h) =
          let all = run-first o r c n l ts ls a.writer a.state e h in
          (
            ap (λ x. x.0) all,
            ap (λ x. reliable.written x.1.writer) all
                ∙ written-after_all (empty_object ∷ (answers backend ts a.state).0) a.writer,
            ap (λ x. x.1.state) all,
          )
