-- ===== src/Server/Migrations/Compatible.antt =====
-- When a binary may run over a database.
use git_cdc.Common.{
  ℕ, ◌+◌, ◌≡◌, ◌↔◌, ◌⊎◌, refl, sym, subst, Bool, true, false, List, [], ◌∷◌, Option, none, some,
  All, ltb, list_eq_iff, inl, inr, Bool-cases, if◌then◌else◌, arith, ok, ◌>>◌, refuse_if, passed,
  passed_unit,
}
use git_cdc.Server.Migrations.{
  Migration, AppliedMigration, SchemaStatus, SchemaError, up_migrations, find_applied,
  check_applied, count_pending, first_failed, refuse_failed, status_of, schema_status, schema_check,
}

-- The migration has been applied as this binary has it.
abbrev pub Applied : List AppliedMigration → Migration → Type 0
Applied rows m =
    (r : AppliedMigration) × (find_applied m.version rows ≡ some r)
    × (r.success ≡ true)
    × (r.checksum ≡ m.checksum)

-- Every migration that the binary needs has been applied as it has it, and none has failed.
abbrev pub Compatible : List Migration → List AppliedMigration → Type 0
Compatible migrations rows =
    All (λ (m : Migration). (m.is_down ≡ true) ⊎ Applied rows m) migrations
    × All (λ (r : AppliedMigration). r.success ≡ true) rows

check_applied-false :
    (m : Migration) (o : Option AppliedMigration)
    → check_applied m o ≡ ok false
    → (r : AppliedMigration) × (o ≡ some r) × (r.success ≡ true) × (r.checksum ≡ m.checksum)
unfolding check_applied
check_applied-false m none h = absurd (cc)
check_applied-false m (some r) h =
    (r, refl, ground arith, ground (arith, list_eq_iff r.checksum m.checksum))

check_applied_lem :
    (m : Migration) (o : Option AppliedMigration) (r : AppliedMigration)
    → o ≡ some r
    → r.success ≡ true
    → r.checksum ≡ m.checksum
    → check_applied m o ≡ ok false
unfolding check_applied
check_applied_lem m o r e s c =
    rw (e, check_applied, s, c, (list_eq_iff m.checksum m.checksum).1 refl)

abbrev NonePending : List Migration → List AppliedMigration → ℕ → Type 0
NonePending ms rows pending = (pending ≡ 0) × All (Applied rows) ms

counted_there :
    (m : Migration) (ms : List Migration) (rows : List AppliedMigration) (pending : ℕ)
    (missing : Bool)
    → check_applied m (find_applied m.version rows) ≡ ok missing
    → NonePending ms rows (if missing then pending + 1 else pending)
    → NonePending (m ∷ ms) rows pending
counted_there m ms rows pending true asked h = absurd (omega (arith, h.0))
counted_there m ms rows pending false asked h =
    (h.0, (check_applied-false m (find_applied m.version rows) asked, h.1))

-- Nothing is pending in the end exactly if nothing was before and each migration is applied.
count_pending-zero :
    (ms : List Migration) (rows : List AppliedMigration) (pending : ℕ)
    → (count_pending ms rows pending ≡ ok 0) ↔ NonePending ms rows pending
unfolding count_pending
count_pending-zero [] rows pending = (λ h. (cc, tt), λ h. cc)
count_pending-zero (m ∷ ms) rows pending = (
  λ h.
      let (missing, asked, rest) = passed (check_applied m (find_applied m.version rows)) _ 0 h in
      counted_there m ms rows pending missing asked
        ((count_pending-zero ms rows (if missing then pending + 1 else pending)).0 rest),
  λ (none_before, ((r, found, s, c), rest)).
      rw (check_applied_lem m (find_applied m.version rows) r found s c)
        ((count_pending-zero ms rows pending).1 (none_before, rest)),
)

first_failed-none :
    (rows : List AppliedMigration)
    → (first_failed rows ≡ none) ↔ All (λ (r : AppliedMigration). r.success ≡ true) rows
unfolding first_failed
first_failed-none [] = (λ h. tt, λ h. refl)
first_failed-none (r ∷ rs) = elim (Bool-cases r.success) [
  | inl good ↦ (
    λ h. (good, (first_failed-none rs).0 (rw good at h)),
    λ h. rw good ((first_failed-none rs).1 h.1),
  )
  | inr bad ↦ (λ h. absurd (cc (rw bad at h)), λ h. absurd (cc))
]

refuse_failed-ok : (o : Option ℕ) → refuse_failed o ≡ ok tt → o ≡ none
unfolding refuse_failed
refuse_failed-ok none h = refl
refuse_failed-ok (some v) h = absurd (cc)

up_migrations-down :
    (m : Migration) (ms : List Migration)
    → m.is_down ≡ true
    → up_migrations (m ∷ ms) ≡ up_migrations ms
unfolding up_migrations
up_migrations-down m ms down = ground arith

up_migrations-up :
    (m : Migration) (ms : List Migration)
    → m.is_down ≡ false
    → up_migrations (m ∷ ms) ≡ m ∷ up_migrations ms
unfolding up_migrations
up_migrations-up m ms up = ground arith

needed :
    (P : Migration → Type 0) (x : Migration) → (x.is_down ≡ true) ⊎ P x → x.is_down ≡ false → P x
needed P x (inl down) up = absurd (cc)
needed P x (inr p) up = p

abbrev OfUp : (Migration → Type 0) → List Migration → Type 0
OfUp P ms = All (λ (m : Migration). (m.is_down ≡ true) ⊎ P m) ms

All-up : (P : Migration → Type 0) (ms : List Migration) → All P (up_migrations ms) ↔ OfUp P ms
unfolding up_migrations
All-up P [] = (λ h. tt, λ h. tt)
All-up P (m ∷ ms) = elim (Bool-cases m.is_down) [
  | inl down ↦ (
    λ h. (inl down, (All-up P ms).0 (subst (All P) (up_migrations-down m ms down) h)),
    λ h. subst (All P) (sym (up_migrations-down m ms down)) ((All-up P ms).1 h.1),
  )
  | inr up ↦ (
    λ h. let all = subst (All P) (up_migrations-up m ms up) h in (inr all.0, (All-up P ms).0 all.1),
    λ h.
        let all : All P (m ∷ up_migrations ms) = (needed P m h.0 up, (All-up P ms).1 h.1) in
        subst (All P) (sym (up_migrations-up m ms up)) all,
  )
]

refused :
    (n : ℕ) (status : SchemaStatus) (e : SchemaError) (s : SchemaStatus)
    → (refuse_if (ltb 0 n) e >> ok status) ≡ ok s
    → (n ≡ 0) × (status ≡ s)
refused n status e s h = ground arith

-- `schema_check` accepts a history exactly if each migration that the binary needs has been applied,
-- successfully and with the binary's own checksum, and no row of the history has failed.
pub schema_check_iff :
    (migrations : List Migration) (rows : List AppliedMigration)
    → ((s : SchemaStatus) × (schema_check migrations (ok (some rows)) ≡ ok s))
      ↔ Compatible migrations rows
unfolding schema_check schema_status refuse_failed
schema_check_iff migrations rows = (
  λ (s, h).
      let (status, made, checked) = passed (schema_status migrations (ok (some rows))) _ s h in
      let (pending, counted, rest) =
        passed (count_pending (up_migrations migrations) rows 0) _ status made in
      let (fine, filled) = passed_unit (refuse_failed (first_failed rows)) _ status rest in
      let none_left = (refused status.pending status _ s checked).0 in
      let none_pending : pending ≡ 0 = cc in
      let all =
        (count_pending-zero (up_migrations migrations) rows 0).0 (rw none_pending at counted) in
      (
        (All-up (Applied rows) migrations).0 all.1,
        (first_failed-none rows).0 (refuse_failed-ok (first_failed rows) fine),
      ),
  λ (applied, succeeded).
      let counted =
        (count_pending-zero (up_migrations migrations) rows 0).1
          (refl, (All-up (Applied rows) migrations).1 applied) in
      let fine = (first_failed-none rows).1 succeeded in
      (status_of migrations rows 0, rw (counted, fine)),
)
