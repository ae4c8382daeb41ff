-- ===== src/Server/Handlers/Batch/Reading.antt =====
-- A batch changes none of the tables.
use git_cdc.Common.{ℕ, Bool, true, false, List, [], ◌∷◌}
use git_cdc.Protocol.{TransferKind}
use git_cdc.Protocol.Messages.{BatchObject, BatchRequest, Operation, upload, download}
use git_cdc.Server.Handlers.Types.{Deployment, Request}
use git_cdc.Server.Handlers.Types.Reading.{admit-Reads, repository_id-Reads}
use git_cdc.Server.Handlers.Batch.{respond_object, respond_objects, batch}
use git_cdc.Server.Locks.{Identity}
use git_cdc.Server.Service.Laws.{Reads, reading, Reads-transaction, Reads->>=, Reads-pure}
use git_cdc.Server.Tx.{Keeps-select}

module _ (d : Deployment) (request : Request) where
  module _ (identity : Identity) (transfer : TransferKind) where
    pub respond_object-Reads :
        (operation : Operation) (there : Bool) (object : BatchObject)
        → Reads (respond_object d request identity transfer operation there object)
    unfolding respond_object
    respond_object-Reads upload true object = search (reading)
    respond_object-Reads upload false object = search (reading) depth 20
    respond_object-Reads download true object = search (reading) depth 20
    respond_object-Reads download false object = search (reading)

    respond_objects-Reads :
        (operation : Operation) (id : ℕ) (objects : List BatchObject)
        → Reads (respond_objects d request identity transfer operation id objects)
    unfolding respond_objects
    respond_objects-Reads operation id [] = search (reading)
    respond_objects-Reads operation id (o ∷ os) =
        let ih = respond_objects-Reads operation id os in
        Reads->>= (Reads-transaction (λ db. Keeps-select)) (λ there.
          Reads->>= (respond_object-Reads operation there o)
            (λ first. Reads->>= ih (λ rest. Reads-pure _)))

  pub batch-Reads : (body : BatchRequest) → Reads (batch d request body)
  unfolding batch
  batch-Reads body =
      search (reading, admit-Reads, repository_id-Reads, respond_objects-Reads) depth 20 fits 4000
