-- ===== src/Client/Backend/Window/Ordered.antt =====
-- In whatever order the chunks arrive, they are written in the order of the object.
use git_cdc.Common.{
  ℕ, zero, suc, ◌+◌, ◌≤◌, ◌<◌, ◌≡◌, ◌≢◌, refl, sym, ap, ◌∙◌, ◌⊎◌, inl, inr, Bool, true, false, List,
  [], ◌∷◌, ◌++◌, none, some, Result, ok, All, length, nat_eq, nat_eq_iff, ltb, ltb→lt, arith,
  Bool-cases, Option-cases,
}
use git_cdc.Client.Backend.Window.{
  Pending, find_pending, remove_pending, insert_pending, Window, opened, advance, flush, received,
  collect,
}
use git_cdc.Client.Transfer.{BackendError}

length-remove_pending-le : (i : ℕ) (p : Pending) → length (remove_pending i p) ≤ length p
unfolding remove_pending
length-remove_pending-le i [] = omega arith
length-remove_pending-le i ((j, b) ∷ p) = ground (arith, length-remove_pending-le i p)

length-remove_pending-lt :
    (i : ℕ) (p : Pending) (b : List ℕ)
    → find_pending i p ≡ some b
    → length (remove_pending i p) < length p
unfolding remove_pending find_pending
length-remove_pending-lt i [] b h = absurd (cc)
length-remove_pending-lt i ((j, x) ∷ p) b h =
    ground (arith, length-remove_pending-le i p, length-remove_pending-lt i p b)

find_pending-remove_pending :
    (i j : ℕ) (p : Pending) → j ≢ i → find_pending j (remove_pending i p) ≡ find_pending j p
unfolding remove_pending find_pending
find_pending-remove_pending i j [] h = refl
find_pending-remove_pending i j ((k, x) ∷ p) h = ground (arith, find_pending-remove_pending i j p)

module _ (fetch : ℕ → List ℕ) (total : ℕ) (accepts : List ℕ → List ℕ → Bool) where
  -- The first chunks, one after the other.
  abbrev pub joined : ℕ → List ℕ
  joined zero = []
  joined (suc n) = joined n ++ fetch n

  abbrev IsChunk : ℕ × List ℕ → Type 0
  IsChunk e = (e.1 ≡ fetch e.0) × (e.0 < total)

  record IsGood (w : Window) : Type 0 where
    in_order : w.written ≡ joined w.next_write
    within : w.next_write ≤ total
    chunks : All IsChunk w.pending

  abbrev Seen : Window → ℕ → Type 0
  Seen w i = (i < w.next_write) ⊎ ((b : List ℕ) × (find_pending i w.pending ≡ some b))

  All-remove_pending : (i : ℕ) (p : Pending) → All IsChunk p → All IsChunk (remove_pending i p)
  unfolding remove_pending
  All-remove_pending i [] h = tt
  All-remove_pending i ((j, b) ∷ p) h = elim (Bool-cases (nat_eq j i)) [
    | inl same ↦ rw same (All-remove_pending i p h.1)
    | inr other ↦ rw other (h.0, All-remove_pending i p h.1)
  ]

  find_pending-IsChunk :
      (i : ℕ) (p : Pending) (b : List ℕ)
      → All IsChunk p
      → find_pending i p ≡ some b
      → IsChunk (i, b)
  unfolding find_pending
  find_pending-IsChunk i [] b h e = absurd (cc)
  find_pending-IsChunk i ((j, x) ∷ p) b h e = elim (Bool-cases (nat_eq j i)) [
    | inl same ↦
        let here : j ≡ i = (nat_eq_iff j i).0 same in
        let this : x ≡ b = cc (rw same at e) in
        (sym this ∙ h.0.0 ∙ ap fetch here, omega (arith, here, h.0.1))
    | inr other ↦ find_pending-IsChunk i p b h.1 (rw other at e)
  ]

  advance-IsGood :
      (w : Window) (b : List ℕ)
      → IsGood w
      → find_pending w.next_write w.pending ≡ some b
      → IsGood (advance total accepts b w)
  unfolding advance
  advance-IsGood w b g e =
      let next = λ (n : ℕ). let e' : suc n ≡ n + 1 = omega arith in e' in
      let c = find_pending-IsChunk w.next_write w.pending b g.chunks e in
      record {
        in_order =
            ap (λ (x : List ℕ). x ++ b) g.in_order
            ∙ ap (λ (x : List ℕ). joined w.next_write ++ x) c.0
            ∙ ap joined (next w.next_write);
        within = omega (arith, c.1);
        chunks = All-remove_pending w.next_write w.pending g.chunks;
      }

  advance-Seen : (w : Window) (b : List ℕ) (i : ℕ) → Seen w i → Seen (advance total accepts b w) i
  unfolding advance
  advance-Seen w b i (inl h) = inl (omega arith)
  advance-Seen w b i (inr (x, e)) = elim (Bool-cases (nat_eq i w.next_write)) [
    | inl same ↦ inl (ground arith)
    | inr other ↦
        inr (x, find_pending-remove_pending w.next_write i w.pending (λ q. ground arith) ∙ e)
  ]

  insert-IsGood :
      (w : Window) (i : ℕ) → IsGood w → i < total → IsGood (received total accepts i (fetch i) w)
  unfolding insert_pending
  insert-IsGood w i g h = record {
    in_order = g.in_order;
    within = g.within;
    chunks = ((refl, h), All-remove_pending i w.pending g.chunks);
  }

  insert-Seen :
      (w : Window) (i j : ℕ) → (j ≡ i) ⊎ Seen w j → Seen (received total accepts i (fetch i) w) j
  unfolding insert_pending find_pending
  insert-Seen w i j (inl e) = inr (fetch i, rw ((nat_eq_iff i j).1 (sym e)))
  insert-Seen w i j (inr (inl h)) = inl h
  insert-Seen w i j (inr (inr (b, e))) = elim (Bool-cases (nat_eq i j)) [
    | inl same ↦ inr (fetch i, rw same)
    | inr other ↦
        inr (b, rw other (find_pending-remove_pending i j w.pending (λ q. ground arith) ∙ e))
  ]

  -- What has been flushed: as much as could be, and nothing that was seen is lost.
  record Flushed (w v : Window) : Type 0 where
    good : IsGood v
    idle : find_pending v.next_write v.pending ≡ none
    kept : (i : ℕ) → Seen w i → Seen v i

  advance_shorter :
      (w : Window) (b : List ℕ) (fuel : ℕ)
      → length w.pending < suc fuel
      → find_pending w.next_write w.pending ≡ some b
      → length (advance total accepts b w).pending < fuel
  unfolding advance
  advance_shorter w b fuel h e = omega (arith, length-remove_pending-lt w.next_write w.pending b e)

  flush-Flushed :
      ((written bytes : List ℕ) → accepts written bytes ≡ true)
      → (fuel : ℕ) (w : Window) → length w.pending < fuel
      → IsGood w
      → (v : Window) × (flush total accepts fuel w ≡ ok v) × Flushed w v
  unfolding flush
  flush-Flushed takes zero w h g = absurd (omega arith)
  flush-Flushed takes (suc fuel) w h g = elim (Option-cases (find_pending w.next_write w.pending)) [
    | inl e ↦ (w, rw (e, flush), record { good = g; idle = e; kept = λ i s. s })
    | inr (b, e) ↦
        let (v, done, f) =
          flush-Flushed takes fuel (advance total accepts b w) (advance_shorter w b fuel h e)
            (advance-IsGood w b g e) in
        (
          v,
          rw (e, flush, takes w.written b) done,
          record { good = f.good; idle = f.idle; kept = λ i s. f.kept i (advance-Seen w b i s) },
        )
  ]

  -- The results, in the order in which the indexes arrive.
  abbrev pub arrivals_of : List ℕ → List (ℕ × Result (List ℕ) BackendError)
  arrivals_of [] = []
  arrivals_of (i ∷ order) = (i, ok (fetch i)) ∷ arrivals_of order

  abbrev pub Occurs : ℕ → List ℕ → Type 0
  Occurs j [] = ⊥
  Occurs j (i ∷ order) = (j ≡ i) ⊎ Occurs j order

  collect-joined :
      ((written bytes : List ℕ) → accepts written bytes ≡ true)
      → (order : List ℕ) (w : Window) → IsGood w
      → find_pending w.next_write w.pending ≡ none
      → All (λ i. i < total) order
      → ((j : ℕ) → j < total → Seen w j ⊎ Occurs j order)
      → (v : Window) × (collect total accepts (arrivals_of order) w ≡ ok v)
        × (v.written ≡ joined total)
  unfolding collect
  collect-joined takes [] w g idle small all = elim (Bool-cases (ltb w.next_write total)) [
    | inl more ↦
        absurd (
          lost (ltb→lt w.next_write total more) (all w.next_write (ltb→lt w.next_write total more)))
    | inr full ↦ (w, rw full, finished full)
  ]
    where
      lost : w.next_write < total → Seen w w.next_write ⊎ ⊥ → ⊥
      lost h (inl (inl x)) = omega arith
      lost h (inl (inr (b, e))) = cc
      lost h (inr x) = x

      finished : ltb w.next_write total ≡ false → w.written ≡ joined total
      finished full =
          let e : w.next_write ≡ total = ground (arith, g.within) in g.in_order ∙ ap joined e
  collect-joined takes (i ∷ order) w g idle small all = elim (Bool-cases (ltb w.next_write total)) [
    | inl more ↦
        let w1 = received total accepts i (fetch i) w in
        let (v, done, f) =
          flush-Flushed takes (suc (length w1.pending)) w1 (omega arith)
            (insert-IsGood w i g small.0) in
        let (u, end, same) = collect-joined takes order v f.good f.idle small.1 (covered v f) in
        (u, rw (more, done) end, same)
    | inr full ↦ (w, rw full, finished full)
  ]
    where
      finished : ltb w.next_write total ≡ false → w.written ≡ joined total
      finished full =
          let e : w.next_write ≡ total = ground (arith, g.within) in g.in_order ∙ ap joined e

      covered :
          (v : Window)
          → Flushed (received total accepts i (fetch i) w) v
          → (j : ℕ) → j < total
          → Seen v j ⊎ Occurs j order
      covered v f j h = elim (all j h) [
        | inl s ↦ inl (f.kept j (insert-Seen w i j (inr s)))
        | inr (inl e) ↦ inl (f.kept j (insert-Seen w i j (inl e)))
        | inr (inr o) ↦ inr o
      ]

  -- If the file takes everything, and the chunks arrive in whatever order, each of them once or more
  -- often and no others, then the section succeeds and has written the chunks one after the other, in
  -- the order of the object, with any number of workers.
  pub collect-Ordered :
      (concurrency : ℕ) (order : List ℕ)
      → ((written bytes : List ℕ) → accepts written bytes ≡ true)
      → All (λ i. i < total) order
      → ((j : ℕ) → j < total → Occurs j order)
      → (v : Window) × (collect total accepts (arrivals_of order) (opened total concurrency) ≡ ok v)
        × (v.written ≡ joined total)
  unfolding opened find_pending
  collect-Ordered concurrency order takes small all =
      collect-joined takes order (opened total concurrency)
        (record { in_order = refl; within = omega arith; chunks = tt }) refl small
        (λ j h. inr (all j h))
