-- ===== src/Client/Cache.antt =====
-- `prune_cache` (crates/git-lfs-delta-client/src/main.rs): the oldest files go until the rest fits.
-- The entries are what `cache_entries` has found; `remove_file` is the file system's.
pub mod Oldest
mod Tests
use git_cdc.Common.{
  ℕ, ◌+◌, ◌-◌, ◌%◌, ◌^◌, Bool, true, false, List, [], ◌∷◌, leb, Result, ok, err, if◌then◌else◌,
}

pub record CacheEntry : Type 0 where
  pub path : List ℕ
  pub size : ℕ
  pub modified : ℕ

pub record FileSystem : Type 1 where
  pub Files : Type 0
  pub IoError : Type 0
  pub remove_file : List ℕ → Files → Result (Unit {0}) IoError × Files

-- `sort_by_key(|entry| entry.modified)`
pub insert_entry : CacheEntry → List CacheEntry → List CacheEntry
insert_entry e [] = e ∷ []
insert_entry e (f ∷ fs) = if leb e.modified f.modified then e ∷ f ∷ fs else f ∷ insert_entry e fs

pub sort_entries : List CacheEntry → List CacheEntry
sort_entries [] = []
sort_entries (e ∷ es) = insert_entry e (sort_entries es)

abbrev pub sum_sizes : List CacheEntry → ℕ
sum_sizes [] = 0
sum_sizes (e ∷ es) = e.size + sum_sizes es

module _ (fs : FileSystem) where
  open fs use {Files, IoError, remove_file}

  -- The loop: how much is left, and how many files have gone.
  pub prune_entries : ℕ → List CacheEntry → ℕ → ℕ → Files → Result (ℕ × ℕ) IoError × Files
  prune_entries maximum [] total removed files = (ok (total, removed), files)
  prune_entries maximum (e ∷ es) total removed files = elim (leb total maximum) [
    | true ↦ (ok (total, removed), files)
    | false ↦
        let (r, files') = remove_file e.path files in
        elim r [
          | err x ↦ (err x, files')
          | ok _ ↦ prune_entries maximum es (total - e.size) (removed + 1) files'
        ]
  ]

  -- `prune_cache`, with the numbers that it prints.
  pub prune_cache : List CacheEntry → ℕ → Files → Result (ℕ × ℕ) IoError × Files
  prune_cache entries maximum files =
      prune_entries maximum (sort_entries entries) (sum_sizes (sort_entries entries) % 2 ^ 64) 0
        files
