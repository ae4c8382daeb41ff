-- ===== src/Server/Migrations/Tests.antt =====
-- A database that has the one migration that a binary needs, and a newer one.
use git_cdc.Common.{◌≡◌, ◌↔◌, true, false, List, [], ◌∷◌, some, ok}
use git_cdc.Server.Migrations.{Migration, AppliedMigration, SchemaStatus, schema_check}
use git_cdc.Server.Migrations.Compatible.{Compatible, schema_check_iff}

abbrev embedded : List Migration
embedded = record { version = 1; checksum = 5 ∷ []; is_down = false } ∷ []

abbrev history : List AppliedMigration
history =
    record { version = 1; checksum = 5 ∷ []; success = true }
    ∷ record { version = 2; checksum = 6 ∷ []; success = true }
    ∷ []

schema_check_iff_example :
    ((s : SchemaStatus) × (schema_check embedded (ok (some history)) ≡ ok s))
    ↔ Compatible embedded history
schema_check_iff_example = schema_check_iff embedded history
