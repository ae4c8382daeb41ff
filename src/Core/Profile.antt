-- ===== src/Core/Profile.antt =====
-- crates/git-lfs-delta-core/src/profile.rs
use git_cdc.Common.{ℕ, ◌*◌}

pub data ChunkingProfile : Type 0 where
  fast_cdc_v1 : ChunkingProfile

abbrev pub beta_v1 : ChunkingProfile
beta_v1 = fast_cdc_v1

-- The minimum, target and maximum chunk size.
abbrev pub sizes : ChunkingProfile → ℕ × ℕ × ℕ
sizes fast_cdc_v1 = (512 * 1024, 2 * 1024 * 1024, 8 * 1024 * 1024)
