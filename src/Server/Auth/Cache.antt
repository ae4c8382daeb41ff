-- ===== src/Server/Auth/Cache.antt =====
-- The authorization cache (crates/git-lfs-delta-server/src/lib.rs, `authenticate_forgejo`): a map
-- from keys to entries as a list, whose order stands for the order in which the map is iterated.
pub mod Laws
use git_cdc.Common.{
  ℕ, suc, ◌+◌, Bool, true, false, not, List, [], ◌∷◌, ◌++◌, Option, none, some, keep, length, ltb,
  leb, list_eq, if◌then◌else◌,
}
use git_cdc.Server.Auth.Types.{Access, read, write, CacheLimits}
use git_cdc.Server.Service.{CachedForgejoIdentity}

abbrev pub Entries : Type 0
Entries = List CachedForgejoIdentity

access_byte : Access → ℕ
access_byte read = 0
access_byte write = 1

-- What the key's hasher is fed.
pub cache_key : (List ℕ → List ℕ) → List ℕ → List ℕ → List ℕ → Access → List ℕ
cache_key sha256 authorization owner name access =
    sha256 (authorization ++ (0 ∷ (owner ++ (0 ∷ (name ++ (access_byte access ∷ []))))))

pub find_entry : List ℕ → Entries → Option CachedForgejoIdentity
find_entry key [] = none
find_entry key (e ∷ es) = if list_eq e.key key then some e else find_entry key es

pub remove_entry : List ℕ → Entries → Entries
remove_entry key [] = []
remove_entry key (e ∷ es) =
    let rest = remove_entry key es in if list_eq e.key key then rest else e ∷ rest

-- `iter().min_by_key(|(_, value)| value.expires_at)`: the first of those that expire first.
pub oldest_of : CachedForgejoIdentity → Entries → CachedForgejoIdentity
oldest_of best [] = best
oldest_of best (e ∷ es) = oldest_of (if ltb e.expires_at best.expires_at then e else best) es

pub remove_oldest : Entries → Entries
remove_oldest [] = []
remove_oldest (e ∷ es) = remove_entry (oldest_of e es).key (e ∷ es)

-- `retain`: what has not expired.
pub retain_fresh : ℕ → Entries → Entries
retain_fresh now es = keep (λ e. ltb now e.expires_at) es

pub make_room : ℕ → Entries → Entries
make_room capacity es = if leb capacity (length es) then remove_oldest es else es

-- `HashMap::insert`: an entry of the same key is replaced.
pub put_entry : CachedForgejoIdentity → Entries → Entries
put_entry new es = new ∷ remove_entry new.key es

-- The last section that holds the cache's lock.
pub remember : CacheLimits → ℕ → CachedForgejoIdentity → Entries → Entries
remember limits now new es = put_entry new (make_room limits.capacity (retain_fresh now es))
