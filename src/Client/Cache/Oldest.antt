-- ===== src/Client/Cache/Oldest.antt =====
-- What `prune_cache` removes: the oldest files, and no more of them than it must.
use git_cdc.Common.{
  ℕ, ◌+◌, ◌-◌, ◌%◌, ◌^◌, ◌≤◌, ◌<◌, ◌≡◌, refl, ap, ◌∙◌, List, [], ◌∷◌, ◌++◌, length, leb, Result, ok,
  inl, inr, Bool-cases, subst, All, arith,
}
use native.Mathlib.Nat.{mod-eq_of_lt}
use mathlib.Core.List.{Perm}
use mathlib.Core.List.Perm
use git_cdc.Client.Cache.{
  insert_entry, CacheEntry, FileSystem, sort_entries, sum_sizes, prune_entries, prune_cache,
}

-- From the oldest to the newest.
abbrev pub ByAge : List CacheEntry → Type 0
ByAge [] = Unit {0}
ByAge (e ∷ es) = All (λ (f : CacheEntry). e.modified ≤ f.modified) es × ByAge es

All-insert_entry :
    (P : CacheEntry → Type 0) (e : CacheEntry) (es : List CacheEntry)
    → P e
    → All P es
    → All P (insert_entry e es)
unfolding insert_entry
All-insert_entry P e [] p h = (p, tt)
All-insert_entry P e (f ∷ fs) p h = elim (Bool-cases (leb e.modified f.modified)) [
  | inl before ↦ rw before (p, h)
  | inr after ↦ rw after (h.0, All-insert_entry P e fs p h.1)
]

older :
    (m n : ℕ) (es : List CacheEntry)
    → m ≤ n
    → All (λ (f : CacheEntry). n ≤ f.modified) es
    → All (λ (f : CacheEntry). m ≤ f.modified) es
older m n [] b h = tt
older m n (e ∷ es) b h = (omega (arith, h.0), older m n es b h.1)

insert_entry-ByAge : (e : CacheEntry) (es : List CacheEntry) → ByAge es → ByAge (insert_entry e es)
unfolding insert_entry
insert_entry-ByAge e [] h = (tt, tt)
insert_entry-ByAge e (f ∷ fs) h = elim (Bool-cases (leb e.modified f.modified)) [
  | inl before ↦ rw before ((ground arith, older e.modified f.modified fs (ground arith) h.0), h)
  | inr after ↦ rw after (
    All-insert_entry (λ (x : CacheEntry). f.modified ≤ x.modified) e fs (ground arith) h.0,
    insert_entry-ByAge e fs h.1,
  )
]

insert_entry-Perm : (e : CacheEntry) (es : List CacheEntry) → Perm (insert_entry e es) (e ∷ es)
unfolding insert_entry
insert_entry-Perm e [] = Perm.refl (e ∷ [])
insert_entry-Perm e (f ∷ fs) = elim (Bool-cases (leb e.modified f.modified)) [
  | inl before ↦ rw before (Perm.refl (e ∷ f ∷ fs))
  | inr after ↦ rw after (Perm.trans (Perm.cons f (insert_entry-Perm e fs)) (Perm.swap e f fs))
]

sort_entries-ByAge : (es : List CacheEntry) → ByAge (sort_entries es)
unfolding sort_entries
sort_entries-ByAge [] = tt
sort_entries-ByAge (e ∷ es) = insert_entry-ByAge e (sort_entries es) (sort_entries-ByAge es)

sort_entries-Perm : (es : List CacheEntry) → Perm (sort_entries es) es
unfolding sort_entries
sort_entries-Perm [] = Perm.refl []
sort_entries-Perm (e ∷ es) =
    Perm.trans (insert_entry-Perm e (sort_entries es)) (Perm.cons e (sort_entries-Perm es))

sum_sizes-insert_entry :
    (e : CacheEntry) (es : List CacheEntry) → sum_sizes (insert_entry e es) ≡ e.size + sum_sizes es
unfolding insert_entry
sum_sizes-insert_entry e [] = refl
sum_sizes-insert_entry e (f ∷ fs) = ground (arith, sum_sizes-insert_entry e fs)

sum_sizes-sort_entries : (es : List CacheEntry) → sum_sizes (sort_entries es) ≡ sum_sizes es
unfolding sort_entries
sum_sizes-sort_entries [] = refl
sum_sizes-sort_entries (e ∷ es) =
    omega (arith, sum_sizes-insert_entry e (sort_entries es), sum_sizes-sort_entries es)

module _ (fs : FileSystem) where
  -- The files after the entries have been removed, in order.
  abbrev pub without_files : List CacheEntry → fs.Files → fs.Files
  without_files [] files = files
  without_files (e ∷ es) files = without_files es (fs.remove_file e.path files).1

  -- Each of the files that have gone had to: with it and the later ones there was too much.
  abbrev pub Needed : ℕ → List CacheEntry → List CacheEntry → Type 0
  Needed maximum [] kept = Unit {0}
  Needed maximum (e ∷ gone) kept =
      (maximum < sum_sizes ((e ∷ gone) ++ kept)) × Needed maximum gone kept

  -- The entries are split: the first have gone, each of them of need, and the others fit.
  abbrev Cut : ℕ → List CacheEntry → ℕ → fs.Files → Result (ℕ × ℕ) fs.IoError × fs.Files → Type 0
  Cut maximum entries removed files (r, files') =
      (gone : List CacheEntry) × (kept : List CacheEntry) × (entries ≡ gone ++ kept)
      × (r ≡ ok (sum_sizes kept, removed + length gone))
      × (files' ≡ without_files gone files)
      × (sum_sizes kept ≤ maximum)
      × Needed maximum gone kept

  prune_entries-Cut :
      (maximum : ℕ) (es : List CacheEntry) (total removed : ℕ) (files : fs.Files)
      → total ≡ sum_sizes es
      → ((path : List ℕ) (f : fs.Files) → (fs.remove_file path f).0 ≡ ok tt)
      → Cut maximum es removed files (prune_entries fs maximum es total removed files)
  unfolding prune_entries
  prune_entries-Cut maximum [] total removed files same works =
      ([], [], refl, ap ok (λ i. (same i, count i)), refl, omega arith, tt)
    where
      count : removed ≡ removed + 0
      count = omega arith
  prune_entries-Cut maximum (e ∷ es) total removed files same works =
      elim (Bool-cases (leb total maximum)) [
        | inl fits ↦
            rw (fits, prune_entries)
              (
                [],
                e ∷ es,
                refl,
                ap ok (λ i. (same i, count i)),
                refl,
                ground (arith, same, fits),
                tt,
              )
        | inr over ↦
            let (gone, kept, split, result, after, small, needed) =
              prune_entries-Cut maximum es (total - e.size) (removed + 1)
                (fs.remove_file e.path files).1 (omega (arith, same)) works in
            rw (over, prune_entries, works e.path files)
              (
                e ∷ gone,
                kept,
                ap (◌∷◌ e) split,
                result ∙ ap (λ n. ok (sum_sizes kept, n)) (omega arith),
                after,
                small,
                (
                  subst (λ n. maximum < e.size + n) (ap sum_sizes split)
                      (ground (arith, same, over)),
                  needed,
                ),
              )
      ]
    where
      count : removed ≡ removed + 0
      count = omega arith

  -- The entries are divided in two, so that none that has gone is newer than one that is kept: those
  -- that have gone went from the oldest on, each while it and the later ones were more than the
  -- maximum.
  abbrev pub Pruned : ℕ → List CacheEntry → fs.Files → Result (ℕ × ℕ) fs.IoError × fs.Files → Type 0
  Pruned maximum entries files (r, files') =
      (gone : List CacheEntry) × (kept : List CacheEntry) × Perm (gone ++ kept) entries
      × ByAge (gone ++ kept)
      × (r ≡ ok (sum_sizes kept, length gone))
      × (files' ≡ without_files gone files)
      × (sum_sizes kept ≤ maximum)
      × Needed maximum gone kept

  -- Suppose every file can be removed, and the sizes add up to less than a `u64` holds. Then
  -- `prune_cache` succeeds, and the entries are, in some order from the oldest to the newest, those
  -- that it removes followed by those that it keeps. It removes them in that order, each while it and
  -- the later ones are more than the maximum, and no other file; what it says is left is the sum of
  -- the sizes that it keeps and within the maximum, and it says how many it has removed.
  pub prune_cache-Pruned :
      (entries : List CacheEntry) (maximum : ℕ) (files : fs.Files)
      → ((path : List ℕ) (f : fs.Files) → (fs.remove_file path f).0 ≡ ok tt)
      → sum_sizes entries < 2 ^ 64
      → Pruned maximum entries files (prune_cache fs entries maximum files)
  unfolding prune_cache
  prune_cache-Pruned entries maximum files works b =
      let sorted = sort_entries entries in
      let small : sum_sizes sorted < 2 ^ 64 = omega (arith, sum_sizes-sort_entries entries) in
      let (gone, kept, split, result, after, fits, needed) =
        prune_entries-Cut maximum sorted (sum_sizes sorted % 2 ^ 64) 0 files (mod-eq_of_lt small)
          works in
      (
        gone,
        kept,
        subst (λ es. Perm es entries) split (sort_entries-Perm entries),
        subst ByAge split (sort_entries-ByAge entries),
        result ∙ ap (λ n. ok (sum_sizes kept, n)) (omega arith),
        after,
        fits,
        needed,
      )
