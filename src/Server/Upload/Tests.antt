-- ===== src/Server/Upload/Tests.antt =====
-- Opening a session for an object that has an open one.
use git_cdc.Common.{[], ◌∷◌}
use git_cdc.Server.Error.{integrity}
use git_cdc.Server.Schema.{Db, open_state}
use git_cdc.Server.Tx.{Commits}
use git_cdc.Server.Samples.{tables, session, small, object}
use git_cdc.Server.Upload.{open_session}
use git_cdc.Server.Upload.Sessions.{Single, open_session-Single}

abbrev one_open : Db
one_open = tables (session 70 open_state ∷ []) [] [] []

open_session-Single_example :
    Commits (λ _ d. Single d) (open_session integrity 10 71 (object 60) small one_open)
open_session-Single_example =
    open_session-Single integrity 10 71 (object 60) small one_open
      (record { single = ((λ _. tt), tt) })
