-- ===== src/Client/Cache/Tests.antt =====
-- A cache of two files, of which the older one has to go.
use git_cdc.Common.{ℕ, refl, List, [], ◌∷◌, ok, arith}
use git_cdc.Client.Cache.{CacheEntry, FileSystem, prune_cache}
use git_cdc.Client.Cache.Oldest.{Pruned, prune_cache-Pruned}

abbrev entry : ℕ → ℕ → CacheEntry
entry size modified = record { path = modified ∷ []; size = size; modified = modified }

abbrev entries : List CacheEntry
entries = entry 5 2 ∷ entry 4 1 ∷ []

-- The paths that have been removed.
abbrev log : FileSystem
log = record {
  Files = List (List ℕ);
  IoError = Unit {0};
  remove_file = λ path removed. (ok tt, path ∷ removed);
}

prune_cache-Pruned_example : Pruned log 5 entries [] (prune_cache log entries 5 [])
prune_cache-Pruned_example = prune_cache-Pruned log entries 5 [] (λ path f. refl) (omega arith)
