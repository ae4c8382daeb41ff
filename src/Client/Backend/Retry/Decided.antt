-- ===== src/Client/Backend/Retry/Decided.antt =====
-- The retry loops send three times at most, and the first answer that is not transient decides.
use git_cdc.Common.{
  ℕ, zero, suc, ◌+◌, ◌<◌, ◌≡◌, refl, ◌⊎◌, inl, inr, Bool, true, false, not, ◌&&◌, List, ◌++◌,
  Result, ok, err, ltb, ltb→lt, codes, arith, Bool-cases,
}
use git_cdc.Client.Backend.Types.{
  Platform, HttpRequest, Response, Reply, responded, transport, failure, retryable_status,
  is_success, backoff, delay_of,
}
use git_cdc.Client.Backend.Retry.{
  Texts, Outcome, strict_reply, patient_reply, send_strictly, send_patiently, pause,
}
use git_cdc.Client.Transfer.{BackendError}

-- An answer after which the source tries again.
abbrev pub transient : Reply → Bool
transient (responded r) = not (is_success r.status) && retryable_status r.status
transient (transport error) = true

-- What an answer makes of the whole, if nothing is sent after it.
abbrev pub Verdict : Reply → Result Response BackendError → Type 0
Verdict (responded r) (ok x) = (is_success r.status ≡ true) × (x ≡ r)
Verdict (responded r) (err e) = is_success r.status ≡ false
Verdict (transport error) (ok x) = ⊥
Verdict (transport error) (err e) = Unit

module _ (platform : Platform) where
  open platform use {State, Url, send, sleep}

  module _ (request : HttpRequest Url) where
    -- So many answers in a row have been transient, each but the last round's followed by a wait.
    abbrev pub Tried : ℕ → State → State → Type 0
    Tried zero s u = u ≡ s
    Tried (suc k) s u =
        (transient (send request s).0 ≡ true)
        × ((delay : ℕ) × Tried k (sleep delay (send request s).1) u)

    -- The request has been sent once more than it had transient answers before, at most as often as
    -- there were rounds. The last answer decides: it is the result if it is a success, and else the
    -- result is an error; and it is not transient, unless there were no rounds left.
    abbrev pub Decided : ℕ → State → Outcome platform → Type 0
    Decided rounds s r =
        (k : ℕ) × (u : State) × (k < rounds)
        × Tried k s u
        × (r.1 ≡ (send request u).1)
        × Verdict (send request u).0 r.0
        × ((transient (send request u).0 ≡ false) ⊎ (k + 1 ≡ rounds))

    later :
        (rounds : ℕ) (s : State) (delay : ℕ) (r : Outcome platform)
        → transient (send request s).0 ≡ true
        → Decided rounds (sleep delay (send request s).1) r
        → Decided (suc rounds) s r
    later rounds s delay r again (k, u, few, tried, end, verdict, last) =
        (suc k, u, omega arith, (again, (delay, tried)), end, verdict, still last)
      where
        still :
            (transient (send request u).0 ≡ false) ⊎ (k + 1 ≡ rounds)
            → (transient (send request u).0 ≡ false) ⊎ (suc k + 1 ≡ suc rounds)
        still (inl h) = inl h
        still (inr h) = inr (omega arith)

    ended :
        (left attempt : ℕ) (reply : Reply)
        → suc left + attempt ≡ 3
        → (transient reply ≡ false) ⊎ (ltb attempt 2 ≡ false)
        → (transient reply ≡ false) ⊎ (0 + 1 ≡ suc left)
    ended left attempt reply e (inl h) = inl h
    ended left attempt reply e (inr h) = inr (ground arith)

    module _ (texts : Texts) where
      abbrev refusal : Response → Result Response BackendError
      refusal r = err (failure (texts.refused ++ platform.number_text r.status))

      strict_reply-cases :
          (again : ℕ → Outcome platform) (attempt : ℕ) (reply : Reply) (s : State)
          → ((delay : ℕ) × (transient reply ≡ true)
              × (ltb attempt 2 ≡ true)
              × (strict_reply platform texts again attempt reply s ≡ again delay))
            ⊎ ((r : Result Response BackendError) × (strict_reply platform texts again attempt reply
                    s
                  ≡ (r, s))
                × Verdict reply r
                × ((transient reply ≡ false) ⊎ (ltb attempt 2 ≡ false)))
      unfolding strict_reply
      strict_reply-cases again attempt (responded r) s = elim (Bool-cases (is_success r.status)) [
        | inl good ↦ inr (ok r, rw good, (good, refl), inl (rw good))
        | inr bad ↦ elim (Bool-cases (retryable_status r.status)) [
          | inl retry ↦ elim (Bool-cases (ltb attempt 2)) [
            | inl early ↦ inl (delay_of r attempt, rw (bad, retry), early, rw (bad, retry, early))
            | inr late ↦ inr (refusal r, rw (bad, retry, late), bad, inr late)
          ]
          | inr final ↦ inr (refusal r, rw (bad, final), bad, inl (rw (bad, final)))
        ]
      ]
      strict_reply-cases again attempt (transport error) s = elim (Bool-cases (ltb attempt 2)) [
        | inl early ↦ inl (backoff attempt, refl, early, rw early)
        | inr late ↦ inr (err (failure (texts.broken ++ error)), rw late, tt, inr late)
      ]

      -- A loop that fails at once in its last round decides.
      pub send_strictly-Decided :
          (left attempt : ℕ) (s : State)
          → 0 < left
          → left + attempt ≡ 3
          → Decided left s (send_strictly platform texts request left attempt s)
      unfolding send_strictly
      send_strictly-Decided zero attempt s h e = absurd (omega arith)
      send_strictly-Decided (suc left) attempt s h e =
          let sent = send request s in
          let again = λ (delay : ℕ).
            send_strictly platform texts request left (attempt + 1) (sleep delay sent.1) in
          elim (strict_reply-cases again attempt sent.0 sent.1) [
            | inl (delay, retry, early, same) ↦ rw same (
                later left s delay (again delay) retry (
                  send_strictly-Decided left (attempt + 1) (sleep delay sent.1)
                    (ground (arith, ltb→lt attempt 2 early)) (omega arith)))
            | inr (r, same, verdict, last) ↦
                rw same (0, s, omega arith, refl, refl, verdict, ended left attempt sent.0 e last)
          ]

      patient_reply-cases :
          (again : List ℕ → ℕ → Outcome platform) (attempt : ℕ) (reply : Reply) (s : State)
          → ((error : List ℕ) × (delay : ℕ) × (transient reply ≡ true)
              × (patient_reply platform texts again attempt reply s ≡ again error delay))
            ⊎ ((r : Result Response BackendError) × (patient_reply platform texts again attempt
                    reply s
                  ≡ (r, s))
                × Verdict reply r
                × (transient reply ≡ false))
      unfolding patient_reply
      patient_reply-cases again attempt (responded r) s = elim (Bool-cases (is_success r.status)) [
        | inl good ↦ inr (ok r, rw good, (good, refl), rw good)
        | inr bad ↦ elim (Bool-cases (retryable_status r.status)) [
          | inl retry ↦ inl (
            codes "HTTP " ++ platform.number_text r.status,
            delay_of r attempt,
            rw (bad, retry),
            rw (bad, retry),
          )
          | inr final ↦ inr (refusal r, rw (bad, final), bad, rw (bad, final))
        ]
      ]
      patient_reply-cases again attempt (transport error) s =
          inl (error, backoff attempt, refl, refl)

      transient-Verdict :
          (reply : Reply) (e : BackendError) → transient reply ≡ true → Verdict reply (err e)
      transient-Verdict (responded r) e h = ground arith
      transient-Verdict (transport error) e h = tt

      -- A loop that remembers the last error decides.
      pub send_patiently-Decided :
          (left attempt : ℕ) (last_error : List ℕ) (s : State)
          → 0 < left
          → left + attempt ≡ 3
          → Decided left s (send_patiently platform texts request left attempt last_error s)
      unfolding send_patiently
      send_patiently-Decided zero attempt last_error s h e = absurd (omega arith)
      send_patiently-Decided (suc zero) attempt last_error s h e =
          let sent = send request s in
          let again = λ (error : List ℕ) (delay : ℕ).
            send_patiently platform texts request 0 (attempt + 1) error
              (pause platform texts request attempt delay sent.1) in
          elim (patient_reply-cases again attempt sent.0 sent.1) [
            | inl (error, delay, retry, same) ↦
                let late : ltb attempt 2 ≡ false = ground arith in
                rw (same, late)
                  (0, s, omega arith, refl, refl, transient-Verdict sent.0 _ retry, inr refl)
            | inr (r, same, verdict, last) ↦
                rw same (0, s, omega arith, refl, refl, verdict, inl last)
          ]
      send_patiently-Decided (suc (suc left)) attempt last_error s h e =
          let sent = send request s in
          let again = λ (error : List ℕ) (delay : ℕ).
            send_patiently platform texts request (suc left) (attempt + 1) error
              (pause platform texts request attempt delay sent.1) in
          elim (patient_reply-cases again attempt sent.0 sent.1) [
            | inl (error, delay, retry, same) ↦
                let early : ltb attempt 2 ≡ true = ground arith in
                rw (same, early)
                  (later (suc left) s delay
                    (send_patiently platform texts request (suc left) (attempt + 1) error
                      (sleep delay sent.1))
                    retry
                    (send_patiently-Decided (suc left) (attempt + 1) error (sleep delay sent.1)
                      (omega arith) (omega arith)))
            | inr (r, same, verdict, last) ↦
                rw same (0, s, omega arith, refl, refl, verdict, inl last)
          ]

  -- Whatever the server and the network do, both loops send a request three times at most: once more
  -- than it had transient answers in a row, each followed by a wait. The last answer decides: the
  -- result is that response if it is a success, and else an error; and it is not transient, unless it
  -- was the third.
  pub retrying-Decided :
      (request : HttpRequest Url) (texts : Texts) (unknown : List ℕ) (s : State)
      → Decided request 3 s (send_strictly platform texts request 3 0 s)
        × Decided request 3 s (send_patiently platform texts request 3 0 unknown s)
  retrying-Decided request texts unknown s = (
    send_strictly-Decided request texts 3 0 s (omega arith) (omega arith),
    send_patiently-Decided request texts 3 0 unknown s (omega arith) (omega arith),
  )
