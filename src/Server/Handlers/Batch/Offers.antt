-- ===== src/Server/Handlers/Batch/Offers.antt =====
-- What a batch offers for each object.
use git_cdc.Common.{
  ℕ, Bool, true, false, not, ◌≡◌, refl, subst, List, [], ◌∷◌, none, some, length, ltb, codes, arith,
  ok, Result, Any, ap, err, Option, ◌==◌, sym, ◌⊎◌, inl, inr, Bool-cases, map_err, ◌≤◌,
}
use git_cdc.Protocol.{TransferKind, basic, cdc, TransferSelectionError, select_transfer}
use git_cdc.Protocol.Messages.{
  Operation, upload, download, BatchObject, BatchRequest, BatchResponse,
}
use git_cdc.Server.Error.{ApiError, api_error}
use git_cdc.Server.Handlers.Types.{Deployment, Request, admit}
use git_cdc.Server.Handlers.Types.Reading.{admit-Reads, repository_id-Reads}
use git_cdc.Server.Handlers.Upload.{object_key}
use git_cdc.Server.Handlers.Batch.{
  access_of, object_exists, Action, ObjectResponse, action_url, respond_object, respond_objects,
  unacceptable, batch, authorized_action, with_authorization,
}
use git_cdc.Server.Handlers.Batch.Reading.{batch-Reads, respond_object-Reads}
use git_cdc.Server.Locks.{Identity}
use git_cdc.Server.Lookup.{repository_id}
use git_cdc.Core.Digest.{ObjectOid, display}
use git_cdc.Server.Tables.{find_object}
use git_cdc.Server.Schema.{Db, Object, ObjectKey, object_key_Eq, object_key_eq_iff}
use git_cdc.Server.Service.{AppState, respond, transaction}
use git_cdc.Server.Service.Laws.{through, past, transaction-ok, Reads-eq, map_err-ok}
use git_cdc.Server.Tx.{select}

-- The object is in the tables.
abbrev pub InTables : ℕ → ObjectOid → Db → Type 0
InTables id oid db = Any (λ (o : Object). (o.key.repository_id ≡ id) × (o.key.oid ≡ oid)) db.objects

-- What a Boolean answer to a question says.
abbrev Told : Type 0 → Bool → Type 0
Told P true = P
Told P false = ¬ P

Told-or : (P Q : Type 0) (b : Bool) → ¬ P → Told Q b → Told (P ⊎ Q) b
Told-or P Q true absent q = inr q
Told-or P Q false absent q = λ either. elim either [ inl p ↦ absent p | inr p ↦ q p ]

find_object-Told :
    (id : ℕ) (oid : ObjectOid) (os : List Object)
    → Told
        (Any (λ (o : Object). (o.key.repository_id ≡ id) × (o.key.oid ≡ oid)) os)
        (elim (find_object (object_key id oid) os) [ none ↦ false | some o ↦ true ])
unfolding find_object
find_object-Told id oid [] = λ absent. absent
find_object-Told id oid (o ∷ os) = elim (Bool-cases (o.key == object_key id oid)) [
  | inl same ↦
      let e = (object_key_eq_iff o.key (object_key id oid)).0 same in
      rw same (inl (ap (λ (k : ObjectKey). k.repository_id) e, ap (λ (k : ObjectKey). k.oid) e))
  | inr other ↦ rw other (
      Told-or _ _ _
        (λ named. cc (
          other,
          (object_key_eq_iff o.key (object_key id oid)).1
              (λ i. record { repository_id = named.0 i; oid = named.1 i }),
        ))
        (find_object-Told id oid os))
]

-- The segments of an object's URL, of which a CDC transfer's has one more.
abbrev object_segments : Request → List ℕ → TransferKind → List (List ℕ)
object_segments request oid basic =
    request.owner ∷ request.repository ∷ codes "info" ∷ codes "lfs" ∷ codes "objects" ∷ oid ∷ []
object_segments request oid cdc =
    request.owner
    ∷ request.repository
    ∷ codes "info"
    ∷ codes "lfs"
    ∷ codes "objects"
    ∷ oid
    ∷ codes "cdc"
    ∷ []

module _ (d : Deployment) (request : Request) (transfer : TransferKind) (identity : Identity) where
  -- The one action of this name: it leads to the object's own URL, carries the caller's own
  -- authorization and no other header, and does not expire.
  abbrev Offer : List ℕ → ObjectOid → List (List ℕ × Action d) → Type 0
  Offer name oid actions =
      (action : Action d) × (actions ≡ (name, action) ∷ [])
      × (d.urls.with_segments d.base_url (object_segments request (d.hex.encode oid.bytes) transfer)
          ≡ some action.href)
      × (action.header ≡ (codes "Authorization", identity.authorization) ∷ [])
      × (action.expires_at ≡ none)

  -- An upload is offered for an object that is not there, a download for one that is; a download of
  -- an object that is not there is an error, and an upload of one that is there offers nothing.
  abbrev Fitting : Operation → Type 0 → ObjectResponse d → Type 0
  Fitting upload There r =
      (r.error ≡ none)
      × ((¬ There) × Offer (codes "upload") r.oid r.actions ⊎ There × (r.actions ≡ []))
  Fitting download There r =
      (There × Offer (codes "download") r.oid r.actions × (r.error ≡ none))
      ⊎ (¬ There)
        × (r.actions ≡ [])
        × (r.error ≡ some (record { code = 404; message = codes "object not found" }))

  module _ (operation : Operation) where
    abbrev pub Answers : Type 0 → BatchObject → ObjectResponse d → Type 0
    Answers There object r =
        (r.oid ≡ object.oid) × (r.size ≡ object.size) × Fitting operation There r

    -- One answer for each object, in the order of the objects.
    abbrev pub AllAnswered : ℕ → Db → List BatchObject → List (ObjectResponse d) → Type 0
    AllAnswered id db [] rs = rs ≡ []
    AllAnswered id db (o ∷ os) rs =
        (first : ObjectResponse d) × (rest : List (ObjectResponse d)) × (rs ≡ first ∷ rest)
        × Answers (InTables id o.oid db) o first
        × AllAnswered id db os rest

-- What a handler that answers at once has answered.
of_ok :
    {S A : Type 0} {a b : A} {s t : AppState S}
    → ◌≡◌ {A = Result A ApiError × AppState S} (ok a, s) (ok b, t)
    → a ≡ b
of_ok h = cc

made_of :
    (d : Deployment) (o : Option d.urls.Url) (action : Action d)
    → ◌≡◌ {A = Result (Action d) ApiError}
        (elim o [
          | none ↦ err (api_error 500 "invalid base URL")
          | some url ↦ ok (record { href = url; header = []; expires_at = none })
        ])
        (ok action)
    → (o ≡ some action.href) × (action.expires_at ≡ none)
made_of d none action h = absurd (cc)
made_of d (some url) action h = (cc, cc)

action_url-ok :
    (d : Deployment) (request : Request) (transfer : TransferKind) (oid : ObjectOid)
    (action : Action d)
    → action_url d request.owner request.repository oid transfer ≡ ok action
    → (d.urls.with_segments d.base_url (object_segments request (d.hex.encode oid.bytes) transfer)
        ≡ some action.href)
      × (action.expires_at ≡ none)
unfolding action_url display
action_url-ok d request basic oid action h = made_of d _ action h
action_url-ok d request cdc oid action h = made_of d _ action h

module _ (d : Deployment) (request : Request) (transfer : TransferKind) (identity : Identity) where
  authorized_action-Offer :
      (name : List ℕ) (object : BatchObject) (s t : AppState d.backing.objects.State)
      (r : ObjectResponse d)
      → authorized_action d request identity transfer name object s ≡ (ok r, t)
      → (r.oid ≡ object.oid)
        × (r.size ≡ object.size)
        × (r.error ≡ none)
        × Offer d request transfer identity name r.oid r.actions
  authorized_action-Offer name object s t r h =
      through (respond (action_url d request.owner request.repository object.oid transfer)) _ s h
        λ action s1 e1 h1.
          let (url, lasting) =
            action_url-ok d request transfer object.oid action (ap (λ p. p.0) e1) in
          subst
            (λ (x : ObjectResponse d).
              (x.oid ≡ object.oid)
              × (x.size ≡ object.size)
              × (x.error ≡ none)
              × Offer d request transfer identity name x.oid x.actions)
            (of_ok h1)
            (refl, refl, refl, (with_authorization d identity action, refl, url, refl, lasting))

  respond_object-Answers :
      (operation : Operation) (There : Type 0) (there : Bool) (object : BatchObject)
      (s t : AppState d.backing.objects.State) (r : ObjectResponse d)
      → Told There there
      → respond_object d request identity transfer operation there object s ≡ (ok r, t)
      → Answers d request transfer identity operation There object r
  unfolding respond_object
  respond_object-Answers upload There true object s t r told h =
      subst (Answers d request transfer identity upload There object) (of_ok h)
        (refl, refl, (refl, inr (told, refl)))
  respond_object-Answers upload There false object s t r told h =
      let (oid, size, fine, offer) = authorized_action-Offer (codes "upload") object s t r h in
      (oid, size, (fine, inl (told, offer)))
  respond_object-Answers download There true object s t r told h =
      let (oid, size, fine, offer) = authorized_action-Offer (codes "download") object s t r h in
      (oid, size, inl (told, offer, fine))
  respond_object-Answers download There false object s t r told h =
      subst (Answers d request transfer identity download There object) (of_ok h)
        (refl, refl, inr (told, refl, refl))

respond_objects-AllAnswered :
    (d : Deployment) (request : Request) (identity : Identity) (transfer : TransferKind)
    (operation : Operation) (id : ℕ) (os : List BatchObject)
    (s t : AppState d.backing.objects.State) (rs : List (ObjectResponse d))
    → respond_objects d request identity transfer operation id os s ≡ (ok rs, t)
    → AllAnswered d request transfer identity operation id s.world.db os rs
unfolding respond_objects
respond_objects-AllAnswered d request identity transfer operation id [] s t rs h = cc
respond_objects-AllAnswered d request identity transfer operation id (o ∷ os) s t rs h =
    let query = select (object_exists (object_key id o.oid)) in
    through (transaction query) _ s h λ there s1 e1 h1.
      through (respond_object d request identity transfer operation there o) _ s1 h1
        λ first s2 e2 h2.
          through (respond_objects d request identity transfer operation id os) _ s2 h2
            λ rest s3 e3 h3.
              let asked = (transaction-ok query s s1 there e1).0 in
              let kept =
                Reads-eq _ s1 s2 (ok first)
                  (respond_object-Reads d request identity transfer operation there o) e2 in
              let same : s2.world.db ≡ s.world.db = cc in
              let told : there ≡ object_exists (object_key id o.oid) s.world.db = cc in
              (
                first,
                rest,
                cc,
                respond_object-Answers d request transfer identity operation
                    (InTables id o.oid s.world.db) there o s1 s2 first
                    (subst (Told (InTables id o.oid s.world.db)) (sym told)
                      (find_object-Told id o.oid s.world.db.objects))
                    e2,
                rw same at (
                    respond_objects-AllAnswered d request identity transfer operation id os s2 s3
                      rest e3),
              )

-- What `batch` answers when it succeeds.
abbrev pub Offered :
    (d : Deployment)
    → Request
    → BatchRequest
    → AppState d.backing.objects.State
    → AppState d.backing.objects.State
    → BatchResponse d.urls.Url
    → Type 0
Offered d request body s t r =
    (identity : Identity) × (id : ℕ) × (v : AppState d.backing.objects.State) × (admit d request
        (access_of body.operation) s
      ≡ (ok identity, v))
    × (repository_id request.owner request.repository s.world.db ≡ ok (id, s.world.db))
    × (length body.objects ≤ 1000)
    × (select_transfer body.transfers ≡ ok r.transfer)
    × AllAnswered d request r.transfer identity body.operation id s.world.db body.objects r.objects
    × (t.world.db ≡ s.world.db)

-- A batch that succeeds was admitted with the access that its operation needs, has 1,000 objects at
-- most, and answers for each of its objects, in order: the action `upload` is offered exactly for an
-- object that the tables do not have, the action `download` exactly for one that they have, an error
-- is given exactly for a download of one that they do not have, and nothing else is offered. An
-- action leads to the object's own URL for the transfer that was selected, and carries the caller's
-- own authorization. The tables are as they were.
pub batch-Offered :
    (d : Deployment) (request : Request) (body : BatchRequest)
    (s t : AppState d.backing.objects.State) (r : BatchResponse d.urls.Url)
    → batch d request body s ≡ (ok r, t)
    → Offered d request body s t r
unfolding batch
batch-Offered d request body s t r h =
    let kept = Reads-eq (batch d request body) s t (ok r) (batch-Reads d request body) h in
    past (not (ltb 1000 (length body.objects)))
      (api_error 413 "batch contains more than 1,000 objects") _ s h
      λ few h1. through (admit d request (access_of body.operation)) _ s h1 λ identity s1 e1 h2.
        through (transaction (repository_id request.owner request.repository)) _ s1 h2
          λ id s2 e2 h3.
            through (respond (map_err (λ _. unacceptable) (select_transfer body.transfers))) _ s2 h3
              λ transfer s3 e3 h4.
                through (respond_objects d request identity transfer body.operation id body.objects)
                  _ s3 h4
                  λ objects s4 e4 h5.
                    let kept1 =
                      Reads-eq _ s s1 (ok identity)
                        (admit-Reads d request (access_of body.operation)) e1 in
                    let kept2 = Reads-eq _ s1 s2 (ok id) (repository_id-Reads d request) e2 in
                    let found =
                      (transaction-ok (repository_id request.owner request.repository) s1 s2 id
                        e2).0 in
                    let same : s3.world.db ≡ s.world.db = cc in
                    let refusal = λ (e : TransferSelectionError). unacceptable in
                    let chosen =
                      map_err-ok refusal (select_transfer body.transfers) transfer (cc e3) in
                    let made : record { transfer = transfer; objects = objects } ≡ r = cc in
                    let answered : AllAnswered d request transfer identity body.operation id
                        s.world.db body.objects objects =
                      rw same at (
                        respond_objects-AllAnswered d request identity transfer body.operation id
                          body.objects s3 s4 objects e4) in
                    (
                      identity,
                      id,
                      s1,
                      e1,
                      rw (kept2, kept1) at found,
                      ground arith,
                      cc,
                      subst
                          (λ (x : BatchResponse d.urls.Url).
                            AllAnswered d request x.transfer identity body.operation id s.world.db
                              body.objects x.objects)
                          made answered,
                      kept,
                    )
