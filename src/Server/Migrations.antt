-- ===== src/Server/Migrations.antt =====
-- `schema_status` and `schema_check` (crates/git-lfs-delta-server/src/lib.rs). The migrations that
-- the `sqlx` crate embeds, and what its history table holds in the order of versions, are arguments;
-- a version is a number.
pub mod Compatible
mod Tests
use git_cdc.Common.{
  ℕ, suc, ◌+◌, Bool, true, false, not, ◌&&◌, List, [], ◌∷◌, Option, none, some, keep, any, length,
  nat_eq, ltb, list_eq, if◌then◌else◌, Result, ok, err, ◌>>=◌, ◌>>◌, refuse_if,
}
use git_cdc.Server.Tx.{SqlError}

pub record Migration : Type 0 where
  pub version : ℕ
  pub checksum : List ℕ
  pub is_down : Bool

-- A row of `_sqlx_migrations`.
pub record AppliedMigration : Type 0 where
  pub version : ℕ
  pub checksum : List ℕ
  pub success : Bool

pub record SchemaStatus : Type 0 where
  pub target_version : ℕ
  pub applied_version : ℕ
  pub pending : ℕ
  pub newer : ℕ

-- `Migration` of the source stands for what `migrate` meets, which is not here.
pub data SchemaError : Type 0 where
  database : SqlError → SchemaError
  dirty : ℕ → SchemaError
  checksum_mismatch : ℕ → SchemaError
  still_pending : ℕ → SchemaError

pub up_migrations : List Migration → List Migration
up_migrations ms = keep (λ (m : Migration). not m.is_down) ms

pub find_applied : ℕ → List AppliedMigration → Option AppliedMigration
find_applied version [] = none
find_applied version (r ∷ rs) = if nat_eq r.version version then some r else find_applied version rs

-- `max().unwrap_or(0)`
pub max_of : List ℕ → ℕ
max_of [] = 0
max_of (v ∷ vs) = let rest = max_of vs in if ltb rest v then v else rest

abbrev versions : List Migration → List ℕ
versions [] = []
versions (m ∷ ms) = m.version ∷ versions ms

abbrev applied_versions : List AppliedMigration → List ℕ
applied_versions [] = []
applied_versions (r ∷ rs) = r.version ∷ applied_versions rs

-- The migration's row, if it has one: is the migration pending?
pub check_applied : Migration → Option AppliedMigration → Result Bool SchemaError
check_applied m none = ok true
check_applied m (some r) =
    if not r.success
    then err (dirty r.version)
    else if not (list_eq r.checksum m.checksum)
    then err (checksum_mismatch r.version)
    else ok false

-- The loop over the migrations, which counts those that are pending.
pub count_pending : List Migration → List AppliedMigration → ℕ → Result ℕ SchemaError
count_pending [] applied pending = ok pending
count_pending (m ∷ ms) applied pending = do
  missing ← check_applied m (find_applied m.version applied)
  count_pending ms applied (if missing then pending + 1 else pending)

pub first_failed : List AppliedMigration → Option ℕ
first_failed [] = none
first_failed (r ∷ rs) = if r.success then first_failed rs else some r.version

pub refuse_failed : Option ℕ → Result (Unit {0}) SchemaError
refuse_failed none = ok tt
refuse_failed (some version) = err (dirty version)

abbrev pub status_of : List Migration → List AppliedMigration → ℕ → SchemaStatus
status_of migrations applied pending = record {
  target_version = target_version;
  applied_version = max_of (applied_versions (keep (λ (r : AppliedMigration). r.success) applied));
  pending = pending;
  newer =
      length (keep (λ (r : AppliedMigration). r.success && ltb target_version r.version) applied);
}
  where
    target_version : ℕ
    target_version = max_of (versions (up_migrations migrations))

-- `none` is a history table that is not there.
pub schema_status :
    List Migration
    → Result (Option (List AppliedMigration)) SqlError
    → Result SchemaStatus SchemaError
schema_status migrations (err e) = err (database e)
schema_status migrations (ok none) = ok (record {
  target_version = max_of (versions (up_migrations migrations));
  applied_version = 0;
  pending = length (up_migrations migrations);
  newer = 0;
})
schema_status migrations (ok (some applied)) = do
  pending ← count_pending (up_migrations migrations) applied 0
  refuse_failed (first_failed applied)
  ok (status_of migrations applied pending)

pub schema_check :
    List Migration
    → Result (Option (List AppliedMigration)) SqlError
    → Result SchemaStatus SchemaError
schema_check migrations history = do
  status ← schema_status migrations history
  refuse_if (ltb 0 status.pending) (still_pending status.pending)
  ok status
