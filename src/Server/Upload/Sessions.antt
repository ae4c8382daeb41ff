-- ===== src/Server/Upload/Sessions.antt =====
-- An object has one open session at most.
use git_cdc.Common.{
  ℕ, Bool, true, false, ◌&&◌, ◌≡◌, refl, List, [], ◌∷◌, none, All, ◌==◌, arith, Option-cases, inl,
  inr, Bool-cases,
}
use git_cdc.Core.Manifest.{ObjectManifest}
use git_cdc.Server.Error.{ApiError}
use git_cdc.Server.Schema.{Db, ObjectKey, UploadSession, object_key_Eq}
use git_cdc.Server.Tables.{find_session, update_sessions, is_open}
use git_cdc.Server.Tx.{Commits, Keeps, keeping, modify}
use git_cdc.Server.Upload.{expire_stale, insert_session, open_session}

-- No session of the list is open for the object.
abbrev pub NoneOpen : ObjectKey → List UploadSession → Type 0
NoneOpen object ss = All (λ (t : UploadSession). (t.object == object && is_open t) ≡ false) ss

abbrev pub OneOpen : List UploadSession → Type 0
OneOpen [] = Unit {0}
OneOpen (s ∷ ss) = (is_open s ≡ true → NoneOpen s.object ss) × OneOpen ss

-- An update that opens no session and moves none to another object.
abbrev Calm : (UploadSession → UploadSession) → Type 0
Calm f = (s : UploadSession) → ((f s).object ≡ s.object) × (is_open (f s) ≡ true → is_open s ≡ true)

NoneOpen-update_sessions :
    (p : UploadSession → Bool) (f : UploadSession → UploadSession) (object : ObjectKey)
    (ss : List UploadSession)
    → Calm f
    → NoneOpen object ss
    → NoneOpen object (update_sessions p f ss)
unfolding update_sessions
NoneOpen-update_sessions p f object [] c h = tt
NoneOpen-update_sessions p f object (s ∷ ss) c h =
    (ground (arith, c s), NoneOpen-update_sessions p f object ss c h.1)

OneOpen-update_sessions :
    (p : UploadSession → Bool) (f : UploadSession → UploadSession) (ss : List UploadSession)
    → Calm f
    → OneOpen ss
    → OneOpen (update_sessions p f ss)
unfolding update_sessions
OneOpen-update_sessions p f [] c h = tt
OneOpen-update_sessions p f (s ∷ ss) c h = (
  λ o. elim (Bool-cases (p s)) [
    | inl e ↦
        rw (e, (c s).0) (NoneOpen-update_sessions p f s.object ss c (h.0 ((c s).1 (rw e at o))))
    | inr e ↦ rw e (NoneOpen-update_sessions p f s.object ss c (h.0 (rw e at o)))
  ],
  OneOpen-update_sessions p f ss c h.1,
)

NoneOpen-find_session :
    (object : ObjectKey) (ss : List UploadSession)
    → find_session (λ s. s.object == object && is_open s) ss ≡ none
    → NoneOpen object ss
unfolding find_session
NoneOpen-find_session object [] e = tt
NoneOpen-find_session object (s ∷ ss) e = ground (arith, NoneOpen-find_session object ss)

-- No two sessions are open for one object.
pub record Single (db : Db) : Type 0 where
  pub single : OneOpen db.upload_sessions

insert_session-Single : (new : UploadSession) → Keeps Single (insert_session new)
unfolding insert_session
insert_session-Single new = record {
  keeps = λ db v.
      elim (Option-cases
        (find_session (λ s. s.object == new.object && is_open s) db.upload_sessions)) [
          | inl e ↦
              let added : Single (record db { upload_sessions = new ∷ db.upload_sessions }) =
                record {
                  single = (λ _. NoneOpen-find_session new.object db.upload_sessions e, v.single);
                } in
              rw (e, insert_session) (ground (arith, added))
          | inr (s, e) ↦
              rw (e, insert_session)
                (record {
                  single =
                      OneOpen-update_sessions _ _ db.upload_sessions (λ s. (refl, λ h. h)) v.single;
                })
        ];
}

expire_stale-Single :
    (now : ℕ) (object : ObjectKey) → Keeps Single (modify (expire_stale now object))
unfolding expire_stale
expire_stale-Single now object = record {
  keeps = λ db v. record {
    single =
        OneOpen-update_sessions _ _ db.upload_sessions (λ s. (refl, λ h. absurd (cc))) v.single;
  };
}

-- No two sessions are open for one object: if that holds before `open_session`, it holds of the
-- tables that it commits.
pub open_session-Single :
    (too_large : ApiError) (now fresh : ℕ) (object : ObjectKey) (m : ObjectManifest) (db : Db)
    → Single db
    → Commits (λ _ d. Single d) (open_session too_large now fresh object m db)
unfolding open_session
open_session-Single too_large now fresh object m db v = all.keeps db v
  where
    all : Keeps Single (open_session too_large now fresh object m)
    all = search (keeping, insert_session-Single, expire_stale-Single) depth 12
