-- ===== src/Server/Locks/Paths.antt =====
-- Which paths may be locked.
use git_cdc.Common.{
  ℕ, true, false, ◌||◌, ◌≡◌, ◌≢◌, ◌↔◌, refl, List, [], ◌∷◌, All, any, ok, list_eq, list_eq_iff,
  codes, arith,
}
use git_cdc.Server.Locks.{add_to_first, split, is_empty, validate_lock_path}

-- A component that is neither empty nor the parent directory.
abbrev pub Plain : List ℕ → Type 0
Plain p = (p ≢ []) × (p ≢ codes "..")

is_empty_iff : (p : List ℕ) → (is_empty p ≡ true) ↔ (p ≡ [])
is_empty_iff [] = ground arith
is_empty_iff (c ∷ cs) = ground arith

any-Plain :
    (ps : List (List ℕ))
    → (any (λ p. list_eq p (codes "..") || is_empty p) ps ≡ false) ↔ All Plain ps
any-Plain [] = ground arith
any-Plain (p ∷ ps) = ground (arith, list_eq_iff p (codes ".."), is_empty_iff p, any-Plain ps)

-- `validate_lock_path` accepts a path exactly if every component between slashes is neither empty nor
-- `..`; this rules out the empty path and those that start or end with a slash.
pub validate_lock_path_iff :
    (path : List ℕ) → (validate_lock_path path ≡ ok tt) ↔ All Plain (split path)
unfolding validate_lock_path split
validate_lock_path_iff [] = (λ h. absurd (cc), λ h. absurd (h.0.0 refl))
validate_lock_path_iff (c ∷ cs) =
    ground (arith, any-Plain ([] ∷ split cs), any-Plain (add_to_first c (split cs)))
