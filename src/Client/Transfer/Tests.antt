-- ===== src/Client/Transfer/Tests.antt =====
-- A session of one upload that succeeds and one download that fails.
use git_cdc.Common.{
  ℕ, suc, Bool, true, List, [], ◌∷◌, ◌++◌, none, Result, ok, err, nat_eq, if◌then◌else◌, ◌≡◌, ◌≢◌,
  refl, subst, sym,
}
use git_cdc.Client.Transfer.{
  UploadRequest, DownloadRequest, InputMessage, init, upload_message, download_message, Output,
  empty_object, TransferBackend, Streams, Agent, run_transfer_protocol,
}
use git_cdc.Client.Transfer.Answers.{
  Transfer, uploading, downloading, Reliable, answers, run_transfer_protocol-answers,
}
use git_cdc.Client.Transfer.Discipline.{run_transfer_protocol-untouched}

abbrev upload_one : UploadRequest
upload_one = record { oid = record { bytes = 1 ∷ [] }; size = 5; path = []; action = none }

abbrev download_two : DownloadRequest
download_two = record { oid = record { bytes = 2 ∷ [] }; size = 5; action = none }

abbrev decode : List ℕ → Result InputMessage (Unit {0})
decode [] = err tt
decode (n ∷ ns) =
    if nat_eq n 0
    then ok (init [] [] true 3)
    else if nat_eq n 1
    then ok (upload_message upload_one)
    else if nat_eq n 2
    then ok (download_message download_two)
    else err tt

-- The writer keeps the values that it is given.
abbrev streams : Streams
streams = record {
  IoError = Unit {0};
  JsonError = Unit {0};
  Writer = List Output;
  from_str = decode;
  to_writer = λ v w. (ok tt, w ++ (v ∷ []));
  write_all = λ bytes w. (ok tt, w);
  flush = λ w. (ok tt, w);
}

abbrev reliable : Reliable streams
reliable = record {
  written = λ w. w;
  to_writer_ok = λ v w. refl;
  write_all_ok = λ bytes w. refl;
  flush_ok = λ w. refl;
  appended = λ v w. refl;
}

-- A backend that counts its transfers; downloads fail.
abbrev backend : TransferBackend
backend = record {
  State = ℕ;
  upload = λ q n. (ok q.size, suc n);
  download = λ q n. (err (record { code = 2; message = [] }), suc n);
}

abbrev agent : Agent streams backend
agent = record { writer = []; state = 0 }

abbrev transfers : List Transfer
transfers = uploading upload_one ∷ downloading download_two ∷ []

abbrev lines : List (Result (List ℕ) (Unit {0}))
lines = ok (0 ∷ []) ∷ ok (1 ∷ []) ∷ ok (2 ∷ []) ∷ []

run_transfer_protocol-answers_example :
    let (result, a) = run_transfer_protocol streams backend lines agent in
    (result ≡ ok tt)
    × (a.writer ≡ empty_object ∷ (answers backend transfers 0).0)
    × (a.state ≡ (answers backend transfers 0).1)
run_transfer_protocol-answers_example =
    run_transfer_protocol-answers streams reliable backend [] [] true 3 transfers lines agent
      (refl, (refl, (refl, tt)))

-- The lines without the first: an upload comes before any initialization.
abbrev too_early : List (Result (List ℕ) (Unit {0}))
too_early = ok (1 ∷ []) ∷ ok (0 ∷ []) ∷ []

too_early-init :
    (l : List ℕ) (rest : List (Result (List ℕ) (Unit {0}))) (o r : List ℕ) (c : Bool) (n : ℕ)
    → too_early ≡ ok l ∷ rest
    → decode l ≢ ok (init o r c n)
too_early-init l rest o r c n e d = apart (subst (λ x. decode x ≡ ok (init o r c n)) (sym same) d)
  where
    same : 1 ∷ [] ≡ l
    same = cc

    apart : decode (1 ∷ []) ≢ ok (init o r c n)
    apart h = cc

run_transfer_protocol-untouched_example :
    (run_transfer_protocol streams backend too_early agent).1 ≡ agent
run_transfer_protocol-untouched_example =
    run_transfer_protocol-untouched streams backend too_early agent too_early-init
