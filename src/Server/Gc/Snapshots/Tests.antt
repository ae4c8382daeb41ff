-- ===== src/Server/Gc/Snapshots/Tests.antt =====
-- Staging where one of two snapshots lists the only object.
use git_cdc.Common.{ℕ, true, ◌≡◌, refl, [], ◌∷◌, list_eq}
use git_cdc.Core.Digest.{object_oid_eq}
use git_cdc.Server.Schema.{Db, Epoch}
use git_cdc.Server.Samples.{tables, object, world}
use git_cdc.Server.Gc.Snapshots.{
  latest, sort_epochs, insert_epoch, newer, reached, tombstoned, stage,
}
use git_cdc.Server.Gc.Snapshots.Spared.{stage-spares}

abbrev epoch : ℕ → Epoch
epoch n = record {
  id = n;
  repository_id = 1;
  ref_fingerprint = [];
  complete = true;
  completed_at = n;
}

abbrev scanned : Db
scanned = record (tables [] [] [] []) {
  reachability_epochs = epoch 3 ∷ epoch 4 ∷ [];
  reachable_objects = record { epoch_id = 3; object_oid = (object 50).oid } ∷ [];
}

reached-scanned : reached (object 50).oid (latest 1 scanned) scanned.reachable_objects ≡ true
unfolding latest sort_epochs insert_epoch newer reached object_oid_eq list_eq
reached-scanned = refl

stage-spares_example :
    tombstoned (object 50) (stage 10 1 60 (world scanned)).1.db.object_tombstones
    ≡ tombstoned (object 50) scanned.object_tombstones
stage-spares_example = stage-spares 10 1 60 (object 50).oid (world scanned) reached-scanned
