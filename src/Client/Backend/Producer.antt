-- ===== src/Client/Backend/Producer.antt =====
-- The producer in `upload` of crates/git-lfs-delta-client/src/backend.rs: it cuts the source again and
-- gives the missing chunks to the workers.
use git_cdc.Common.{
  ℕ, suc, ◌^◌, Bool, not, List, [], ◌∷◌, ◌++◌, Option, none, some, Result, ok, err, ◌>>=◌, ◌>>◌,
  map_err, refuse_if, any, nat_eq, ltb, codes, if◌then◌else◌,
}
use git_cdc.Client.Backend.Types.{failure}
use git_cdc.Client.Transfer.{BackendError}
use git_cdc.Core.Stream.{Hashes, Item, Chunk, ChunkStream, CoreError, next_item}

-- What the producer sees of the workers when it has the chunk with an index: is there one that
-- takes a job, and the failure that `try_recv` gives, if it gives one.
pub record Turn : Type 0 where
  pub takes : Bool
  pub reported : Option BackendError

abbrev pub Job : Type 0
Job = ℕ × List ℕ

module _ (core_error_text : CoreError → List ℕ) (hashes : Hashes) (turns : ℕ → Turn)
    (missing : List ℕ) where
  -- The job of a chunk, if it is missing.
  pub job_of : ℕ → Result Chunk CoreError → Result (List Job) BackendError
  job_of index made = do
    chunk ← map_err (λ error. failure (core_error_text error)) made
    refuse_if (not (ltb index (2 ^ 32))) (failure (codes "object has too many chunks"))
    if not (any (λ i. nat_eq i index) missing)
        then ok []
        else if (turns index).takes
        then ok ((index, chunk.bytes) ∷ [])
        else err (failure (codes "chunk upload worker stopped"))

  -- The end of a round: `rest` is what the rounds after it make.
  abbrev pub round :
      ℕ
      → Result (List Job) BackendError
      → Option BackendError × List Job
      → Option BackendError × List Job
  round index (err e) rest = (some e, [])
  round index (ok jobs) (stopped, more) = elim (turns index).reported [
    | some e ↦ (some e, jobs)
    | none ↦ (stopped, jobs ++ more)
  ]

  -- The second pass over the source, from the chunk with the given index: `producer_error`, and the
  -- jobs that the workers have been given.
  pub produce : ℕ → List Item → ChunkStream → Option BackendError × List Job
  produce index [] stream = (none, [])
  produce index (item ∷ items) stream =
      let (made, stream') = next_item hashes item (record stream { inner = items }) in
      round index (job_of index made) (produce (suc index) items stream')

-- `producer_error.or_else(...)`
pub outcome_of : Option BackendError → Option BackendError → Result (Unit {0}) BackendError
outcome_of (some e) reported = err e
outcome_of none (some e) = err e
outcome_of none none = ok tt
