-- ===== src/Server/Auth/Cache/Laws.antt =====
-- The cache keeps to its capacity and holds one entry for a key; what holds of every entry survives.
use git_cdc.Common.{
  ℕ, ◌≤◌, ◌<◌, ◌≡◌, ◌≢◌, refl, sym, subst, Bool, true, false, List, [], ◌∷◌, some, All, keep,
  length, ltb, ltb→lt, leb, list_eq, list_eq_iff, ◌⊎◌, inl, inr, Bool-cases, if◌then◌else◌, arith,
}
use git_cdc.Server.Auth.Types.{CacheLimits}
use git_cdc.Server.Auth.Cache.{
  Entries, find_entry, remove_entry, oldest_of, remove_oldest, retain_fresh, make_room, put_entry,
  remember,
}
use git_cdc.Server.Service.{CachedForgejoIdentity}

module _ (P : CachedForgejoIdentity → Type 0) where
  pub All-remove_entry : (key : List ℕ) (es : Entries) → All P es → All P (remove_entry key es)
  unfolding remove_entry
  All-remove_entry key [] h = tt
  All-remove_entry key (e ∷ es) h = elim (Bool-cases (list_eq e.key key)) [
    | inl same ↦ rw same (All-remove_entry key es h.1)
    | inr other ↦ rw other (h.0, All-remove_entry key es h.1)
  ]

  All-keep : (p : CachedForgejoIdentity → Bool) (es : Entries) → All P es → All P (keep p es)
  All-keep p [] h = tt
  All-keep p (e ∷ es) h = elim (Bool-cases (p e)) [
    | inl yes' ↦ rw yes' (h.0, All-keep p es h.1)
    | inr no' ↦ rw no' (All-keep p es h.1)
  ]

  All-remove_oldest : (es : Entries) → All P es → All P (remove_oldest es)
  unfolding remove_oldest
  All-remove_oldest [] h = tt
  All-remove_oldest (e ∷ es) h = All-remove_entry (oldest_of e es).key (e ∷ es) h

  All-make_room : (capacity : ℕ) (es : Entries) → All P es → All P (make_room capacity es)
  unfolding make_room
  All-make_room capacity es h = elim (Bool-cases (leb capacity (length es))) [
    | inl full ↦ rw full (All-remove_oldest es h)
    | inr free ↦ rw free h
  ]

  pub All-remember :
      (limits : CacheLimits) (now : ℕ) (new : CachedForgejoIdentity) (es : Entries)
      → P new
      → All P es
      → All P (remember limits now new es)
  unfolding remember put_entry retain_fresh
  All-remember limits now new es p h = (
    p,
    All-remove_entry new.key (make_room limits.capacity (retain_fresh now es))
        (All-make_room limits.capacity (retain_fresh now es) (All-keep _ es h)),
  )

  pub find_entry-All :
      (key : List ℕ) (es : Entries) (e : CachedForgejoIdentity)
      → All P es
      → find_entry key es ≡ some e
      → P e × (e.key ≡ key)
  unfolding find_entry
  find_entry-All key [] e h found = absurd (cc)
  find_entry-All key (x ∷ es) e h found = elim (Bool-cases (list_eq x.key key)) [
    | inl same ↦
        let this : x ≡ e = cc (rw same at found) in
        (
          subst P this h.0,
          subst (λ (y : CachedForgejoIdentity). y.key ≡ key) this ((list_eq_iff x.key key).0 same),
        )
    | inr other ↦ find_entry-All key es e h.1 (rw other at found)
  ]

length-remove_entry-le : (key : List ℕ) (es : Entries) → length (remove_entry key es) ≤ length es
unfolding remove_entry
length-remove_entry-le key [] = omega arith
length-remove_entry-le key (e ∷ es) = ground (arith, length-remove_entry-le key es)

length-keep-le : (p : CachedForgejoIdentity → Bool) (es : Entries) → length (keep p es) ≤ length es
length-keep-le p [] = omega arith
length-keep-le p (e ∷ es) = ground (arith, length-keep-le p es)

abbrev Has : List ℕ → Entries → Type 0
Has key [] = ⊥
Has key (e ∷ es) = (e.key ≡ key) ⊎ Has key es

length-remove_entry-lt :
    (key : List ℕ) (es : Entries) → Has key es → length (remove_entry key es) < length es
unfolding remove_entry
length-remove_entry-lt key [] h = absurd h
length-remove_entry-lt key (e ∷ es) (inl same) =
    let here = (list_eq_iff e.key key).1 same in
    rw here (omega (arith, length-remove_entry-le key es))
length-remove_entry-lt key (e ∷ es) (inr there) =
    ground (arith, length-remove_entry-lt key es there)

oldest_of-Has :
    (best : CachedForgejoIdentity) (es : Entries)
    → ((oldest_of best es).key ≡ best.key) ⊎ Has (oldest_of best es).key es
unfolding oldest_of
oldest_of-Has best [] = inl refl
oldest_of-Has best (e ∷ es) =
    let next = if ltb e.expires_at best.expires_at then e else best in
    carried best e (ltb e.expires_at best.expires_at) (oldest_of next es).key es
      (oldest_of-Has next es)
  where
    carried :
        (best e : CachedForgejoIdentity) (b : Bool) (key : List ℕ) (es : Entries)
        → (key ≡ (if b then e else best).key) ⊎ Has key es
        → (key ≡ best.key) ⊎ Has key (e ∷ es)
    carried best e true key es (inl same) = inr (inl (sym same))
    carried best e false key es (inl same) = inl same
    carried best e b key es (inr there) = inr (inr there)

length-remove_oldest-lt : (es : Entries) → 0 < length es → length (remove_oldest es) < length es
unfolding remove_oldest
length-remove_oldest-lt [] h = absurd (omega arith)
length-remove_oldest-lt (e ∷ es) h =
    length-remove_entry-lt (oldest_of e es).key (e ∷ es) (first (oldest_of-Has e es))
  where
    first :
        ((oldest_of e es).key ≡ e.key) ⊎ Has (oldest_of e es).key es
        → Has (oldest_of e es).key (e ∷ es)
    first (inl same) = inl (sym same)
    first (inr there) = inr there

-- Room is made for one entry more, if there is to be room for one.
length-make_room-lt :
    (capacity : ℕ) (es : Entries)
    → 0 < capacity
    → length es ≤ capacity
    → length (make_room capacity es) < capacity
unfolding make_room
length-make_room-lt capacity es positive fits = ground (arith, length-remove_oldest-lt es)

abbrev Lacks : List ℕ → Entries → Type 0
Lacks key es = All (λ (e : CachedForgejoIdentity). e.key ≢ key) es

-- No two entries have one key.
abbrev pub Distinct : Entries → Type 0
Distinct [] = Unit {0}
Distinct (e ∷ es) = Lacks e.key es × Distinct es

Distinct-remove_entry : (key : List ℕ) (es : Entries) → Distinct es → Distinct (remove_entry key es)
unfolding remove_entry
Distinct-remove_entry key [] h = tt
Distinct-remove_entry key (e ∷ es) h = elim (Bool-cases (list_eq e.key key)) [
  | inl same ↦ rw same (Distinct-remove_entry key es h.1)
  | inr other ↦
      rw other (All-remove_entry (λ x. x.key ≢ e.key) key es h.0, Distinct-remove_entry key es h.1)
]

Distinct-keep :
    (p : CachedForgejoIdentity → Bool) (es : Entries) → Distinct es → Distinct (keep p es)
Distinct-keep p [] h = tt
Distinct-keep p (e ∷ es) h = elim (Bool-cases (p e)) [
  | inl good ↦ rw good (All-keep (λ x. x.key ≢ e.key) p es h.0, Distinct-keep p es h.1)
  | inr bad ↦ rw bad (Distinct-keep p es h.1)
]

Lacks-remove_entry : (key : List ℕ) (es : Entries) → Lacks key (remove_entry key es)
unfolding remove_entry
Lacks-remove_entry key [] = tt
Lacks-remove_entry key (e ∷ es) = elim (Bool-cases (list_eq e.key key)) [
  | inl same ↦ rw same (Lacks-remove_entry key es)
  | inr other ↦ rw other (λ eq. cc ((list_eq_iff e.key key).1 eq), Lacks-remove_entry key es)
]

Distinct-make_room : (capacity : ℕ) (es : Entries) → Distinct es → Distinct (make_room capacity es)
unfolding make_room remove_oldest
Distinct-make_room capacity es h = elim (Bool-cases (leb capacity (length es))) [
  | inl full ↦ rw full (oldest es h)
  | inr free ↦ rw free h
]
  where
    oldest : (xs : Entries) → Distinct xs → Distinct (remove_oldest xs)
    oldest [] d = tt
    oldest (x ∷ xs) d = Distinct-remove_entry (oldest_of x xs).key (x ∷ xs) d

-- The cache is within its capacity, and has one entry for a key at most.
pub record IsWithin (capacity : ℕ) (es : Entries) : Type 0 where
  pub bounded : length es ≤ capacity
  pub distinct : Distinct es

-- If the cache is within a capacity that is not zero, then so it is when an identity has been
-- remembered; what is found under that identity's key is then that identity, and every entry has the
-- new key or has not expired.
pub remember-IsWithin :
    (limits : CacheLimits) (now : ℕ) (new : CachedForgejoIdentity) (es : Entries)
    → 0 < limits.capacity
    → IsWithin limits.capacity es
    → IsWithin limits.capacity (remember limits now new es)
      × (find_entry new.key (remember limits now new es) ≡ some new)
      × All
          (λ (e : CachedForgejoIdentity). (e.key ≡ new.key) ⊎ (now < e.expires_at))
          (remember limits now new es)
unfolding remember put_entry retain_fresh find_entry
remember-IsWithin limits now new es positive v =
    let fresh = keep (λ (e : CachedForgejoIdentity). ltb now e.expires_at) es in
    let room = make_room limits.capacity fresh in
    (
      record {
        bounded = omega (
          arith,
          length-remove_entry-le new.key room,
          length-make_room-lt limits.capacity fresh positive (
              omega (
                arith,
                length-keep-le (λ (e : CachedForgejoIdentity). ltb now e.expires_at) es,
                v.bounded,
              )),
        );
        distinct = (
          Lacks-remove_entry new.key room,
          Distinct-remove_entry new.key room
              (Distinct-make_room limits.capacity fresh (Distinct-keep _ es v.distinct)),
        );
      },
      rw ((list_eq_iff new.key new.key).1 refl),
      (
        inl refl,
        All-remove_entry Kept new.key room (All-make_room Kept limits.capacity fresh (kept es)),
      ),
    )
  where
    Kept : CachedForgejoIdentity → Type 0
    Kept e = (e.key ≡ new.key) ⊎ (now < e.expires_at)

    kept : (xs : Entries) → All Kept (keep (λ (e : CachedForgejoIdentity). ltb now e.expires_at) xs)
    kept [] = tt
    kept (x ∷ xs) = elim (Bool-cases (ltb now x.expires_at)) [
      | inl good ↦ rw good (inr (ltb→lt now x.expires_at good), kept xs)
      | inr bad ↦ rw bad (kept xs)
    ]
