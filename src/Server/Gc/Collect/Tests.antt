-- ===== src/Server/Gc/Collect/Tests.antt =====
-- A round over tables with one tombstone that is due.
use git_cdc.Common.{[], ◌∷◌}
use git_cdc.Server.Schema.{Db}
use git_cdc.Server.Samples.{tables, tables-Counted, object}
use git_cdc.Server.Gc.Collect.Counted.{Round, collect_one-total}

abbrev due : Db
due = tables [] [] (record { object = object 50; delete_after = 5 } ∷ []) []

collect_one-total_example : Round 10 1 due
collect_one-total_example =
    collect_one-total 10 1 due
      (tables-Counted [] [] (record { object = object 50; delete_after = 5 } ∷ []) [])
