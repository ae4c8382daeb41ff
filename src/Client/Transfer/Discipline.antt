-- ===== src/Client/Transfer/Discipline.antt =====
-- Nothing is transferred or written before the initialization, which comes once.
use git_cdc.Common.{
  ℕ, Bool, false, List, [], ◌∷◌, Result, ok, err, ◌≡◌, ◌≢◌, refl, ap, ◌∙◌, Result-cases, inl, inr,
}
use git_cdc.Client.Transfer.{
  InputMessage, init, upload_message, download_message, terminate, TransferBackend, Streams, Agent,
  require_initialized, step, run, run_transfer_protocol,
}

module _ (streams : Streams) (backend : TransferBackend) where
  -- The run is over after the first message, unless that is an initialization.
  run-untouched :
      (m : InputMessage) (l : List ℕ) (ls : List (Result (List ℕ) streams.IoError))
      (a : Agent streams backend)
      → streams.from_str l ≡ ok m
      → ((o r : List ℕ) (c : Bool) (n : ℕ) → m ≢ init o r c n)
      → (run streams backend (ok l ∷ ls) false a).1 ≡ a
  unfolding run step require_initialized
  run-untouched (init o r c n) l ls a e h = absurd (h o r c n refl)
  run-untouched (upload_message q) l ls a e h = rw (e, run)
  run-untouched (download_message q) l ls a e h = rw (e, run)
  run-untouched terminate l ls a e h = rw (e, run)

  -- If the first line does not decode to an initialization, `run_transfer_protocol` leaves the writer
  -- and the backend as they were: nothing is transferred and nothing is written, whatever follows.
  pub run_transfer_protocol-untouched :
      (ls : List (Result (List ℕ) streams.IoError)) (a : Agent streams backend)
      → ((l : List ℕ) (rest : List (Result (List ℕ) streams.IoError)) (o r : List ℕ) (c : Bool)
            (n : ℕ)
          → ls ≡ ok l ∷ rest
          → streams.from_str l ≢ ok (init o r c n))
      → (run_transfer_protocol streams backend ls a).1 ≡ a
  unfolding run_transfer_protocol run
  run_transfer_protocol-untouched [] a h = refl
  run_transfer_protocol-untouched (err e ∷ ls) a h = refl
  run_transfer_protocol-untouched (ok l ∷ ls) a h = elim (Result-cases (streams.from_str l)) [
    | inl (m, e) ↦ run-untouched m l ls a e (λ o r c n q. h l ls o r c n refl (e ∙ ap ok q))
    | inr (x, e) ↦ rw (e, run)
  ]
