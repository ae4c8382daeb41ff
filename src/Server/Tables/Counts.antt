-- ===== src/Server/Tables/Counts.antt =====
-- The reference counts: every chunk row counts the rows of `object_chunks` that name it.
use git_cdc.Common.{
  ℕ, suc, ◌+◌, true, false, ◌≡◌, refl, List, [], ◌∷◌, none, some, All, ◌==◌, arith, if◌then◌else◌,
  ◌∙◌,
}
use git_cdc.Server.Schema.{Db, ChunkKey, ChunkRow, ObjectChunk, chunk_key_Eq, chunk_key_eq_iff}
use git_cdc.Server.Tables.{
  find_chunk, has_chunk, add_reference, drop_reference, can_drop_reference, references,
}

abbrev pub CountsOf : List ObjectChunk → List ChunkRow → Type 0
CountsOf ls cs = All (λ (c : ChunkRow). c.reference_count ≡ references c.key ls) cs

abbrev pub LinksInto : List ChunkRow → List ObjectChunk → Type 0
LinksInto cs ls = All (λ (l : ObjectChunk). has_chunk l.chunk cs ≡ true) ls

pub record Counted (db : Db) : Type 0 where
  pub counts : CountsOf db.object_chunks db.chunks
  pub links : LinksInto db.chunks db.object_chunks

pub has_chunk-add_reference :
    (k j : ChunkKey) (cs : List ChunkRow) → has_chunk k (add_reference j cs) ≡ has_chunk k cs
unfolding has_chunk add_reference
has_chunk-add_reference k j [] = refl
has_chunk-add_reference k j (c ∷ cs) = ground (arith, has_chunk-add_reference k j cs)

pub LinksInto-add_reference :
    (j : ChunkKey) (cs : List ChunkRow) (ls : List ObjectChunk)
    → LinksInto cs ls
    → LinksInto (add_reference j cs) ls
LinksInto-add_reference j cs [] h = tt
LinksInto-add_reference j cs (l ∷ ls) h =
    (has_chunk-add_reference l.chunk j cs ∙ h.0, LinksInto-add_reference j cs ls h.1)

-- A new link and the count of its chunk, taken together.
pub CountsOf-add_reference :
    (l : ObjectChunk) (ls : List ObjectChunk) (cs : List ChunkRow)
    → CountsOf ls cs
    → CountsOf (l ∷ ls) (add_reference l.chunk cs)
unfolding add_reference references
CountsOf-add_reference l ls [] h = tt
CountsOf-add_reference l ls (c ∷ cs) h = (ground arith, CountsOf-add_reference l ls cs h.1)

-- No row of `object_chunks` names a chunk that has no row.
pub references_unlinked :
    (k : ChunkKey) (cs : List ChunkRow) (ls : List ObjectChunk)
    → has_chunk k cs ≡ false
    → LinksInto cs ls
    → references k ls ≡ 0
unfolding references
references_unlinked k cs [] h g = refl
references_unlinked k cs (l ∷ ls) h g =
    ground (arith, chunk_key_eq_iff k l.chunk, references_unlinked k cs ls h g.1)

pub find_chunk-none :
    (k : ChunkKey) (cs : List ChunkRow) → find_chunk k cs ≡ none → has_chunk k cs ≡ false
unfolding find_chunk has_chunk
find_chunk-none k [] h = refl
find_chunk-none k (c ∷ cs) h = ground (arith, find_chunk-none k cs)

pub LinksInto-cons :
    (c : ChunkRow) (cs : List ChunkRow) (ls : List ObjectChunk)
    → LinksInto cs ls
    → LinksInto (c ∷ cs) ls
unfolding has_chunk
LinksInto-cons c cs [] h = tt
LinksInto-cons c cs (l ∷ ls) h = (ground arith, LinksInto-cons c cs ls h.1)

-- How often a key stands in a list.
pub occurrences : ChunkKey → List ChunkKey → ℕ
occurrences k [] = 0
occurrences k (j ∷ js) = if k == j then suc (occurrences k js) else occurrences k js

-- The counts while the references in `ks` have yet to be dropped.
abbrev pub Counting : List ObjectChunk → List ChunkKey → List ChunkRow → Type 0
Counting ls ks cs =
    All (λ (c : ChunkRow). c.reference_count ≡ references c.key ls + occurrences c.key ks) cs

pub Counting-CountsOf :
    (ls : List ObjectChunk) (cs : List ChunkRow) → Counting ls [] cs → CountsOf ls cs
unfolding occurrences
Counting-CountsOf ls [] h = tt
Counting-CountsOf ls (c ∷ cs) h = (omega (arith, h.0), Counting-CountsOf ls cs h.1)

pub Counting-drop_reference :
    (ls : List ObjectChunk) (k : ChunkKey) (ks : List ChunkKey) (cs : List ChunkRow)
    → Counting ls (k ∷ ks) cs
    → Counting ls ks (drop_reference k cs)
unfolding drop_reference occurrences
Counting-drop_reference ls k ks [] h = tt
Counting-drop_reference ls k ks (c ∷ cs) h = (ground arith, Counting-drop_reference ls k ks cs h.1)

pub Counting-can_drop_reference :
    (ls : List ObjectChunk) (k : ChunkKey) (ks : List ChunkKey) (cs : List ChunkRow)
    → Counting ls (k ∷ ks) cs
    → can_drop_reference k cs ≡ true
unfolding can_drop_reference occurrences
Counting-can_drop_reference ls k ks [] h = refl
Counting-can_drop_reference ls k ks (c ∷ cs) h =
    ground (arith, Counting-can_drop_reference ls k ks cs h.1)

has_chunk-drop_reference :
    (k j : ChunkKey) (cs : List ChunkRow) → has_chunk k (drop_reference j cs) ≡ has_chunk k cs
unfolding has_chunk drop_reference
has_chunk-drop_reference k j [] = refl
has_chunk-drop_reference k j (c ∷ cs) = ground (arith, has_chunk-drop_reference k j cs)

pub LinksInto-drop_reference :
    (j : ChunkKey) (cs : List ChunkRow) (ls : List ObjectChunk)
    → LinksInto cs ls
    → LinksInto (drop_reference j cs) ls
LinksInto-drop_reference j cs [] h = tt
LinksInto-drop_reference j cs (l ∷ ls) h =
    (has_chunk-drop_reference l.chunk j cs ∙ h.0, LinksInto-drop_reference j cs ls h.1)

pub references_nil : (k : ChunkKey) → references k [] ≡ 0
unfolding references
references_nil k = refl

pub references_cons :
    (k : ChunkKey) (l : ObjectChunk) (ls : List ObjectChunk)
    → references k (l ∷ ls) ≡ (if k == l.chunk then suc (references k ls) else references k ls)
unfolding references
references_cons k l ls = refl

pub occurrences_nil : (k : ChunkKey) → occurrences k [] ≡ 0
unfolding occurrences
occurrences_nil k = refl

pub occurrences_cons :
    (k j : ChunkKey) (js : List ChunkKey)
    → occurrences k (j ∷ js) ≡ (if k == j then suc (occurrences k js) else occurrences k js)
unfolding occurrences
occurrences_cons k j js = refl

pub has_chunk_cons :
    (k : ChunkKey) (c : ChunkRow) (cs : List ChunkRow)
    → has_chunk k (c ∷ cs) ≡ (if c.key == k then true else has_chunk k cs)
unfolding has_chunk
has_chunk_cons k c cs = refl

-- The row that is found for a key has the right count.
pub find_chunk-references :
    (ls : List ObjectChunk) (k : ChunkKey) (cs : List ChunkRow) (c : ChunkRow)
    → CountsOf ls cs
    → find_chunk k cs ≡ some c
    → c.reference_count ≡ references k ls
unfolding find_chunk
find_chunk-references ls k [] c h e = cc
find_chunk-references ls k (x ∷ cs) c h e =
    ground (arith, chunk_key_eq_iff x.key k, find_chunk-references ls k cs c h.1)

pub find_chunk-has_chunk :
    (k : ChunkKey) (cs : List ChunkRow) (c : ChunkRow)
    → find_chunk k cs ≡ some c
    → has_chunk k cs ≡ true
unfolding find_chunk has_chunk
find_chunk-has_chunk k [] c e = absurd (cc)
find_chunk-has_chunk k (x ∷ cs) c e = ground (arith, find_chunk-has_chunk k cs c)
