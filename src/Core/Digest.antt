-- ===== src/Core/Digest.antt =====
-- crates/git-lfs-delta-core/src/digest.rs: 256-bit identities, and their text form.
-- The `hex` crate is the parameter `Hex`; a text and a digest are lists of bytes.
use git_cdc.Common.{
  ℕ, ◌*◌, ◌≡◌, ◌↔◌, ap, Bool, true, List, length, Result, ok, err, ◌>>◌, refuse_if, nat_eq, not, Eq,
  list_eq, list_eq_iff,
}

abbrev digest_bytes : ℕ
digest_bytes = 32

abbrev digest_hex_length : ℕ
digest_hex_length = digest_bytes * 2

pub record ChunkId : Type 0 where
  pub bytes : List ℕ

pub record ObjectOid : Type 0 where
  pub bytes : List ℕ

-- The derived `PartialEq` of the two identities.
unfoldable pub chunk_id_eq : ChunkId → ChunkId → Bool
chunk_id_eq a b = list_eq a.bytes b.bytes

pub chunk_id_eq_iff : (a b : ChunkId) → (chunk_id_eq a b ≡ true) ↔ (a ≡ b)
unfolding chunk_id_eq
chunk_id_eq_iff a b = (
  λ h. λ i. record { bytes = (list_eq_iff a.bytes b.bytes).0 h i },
  λ e. (list_eq_iff a.bytes b.bytes).1 (ap (λ (c : ChunkId). c.bytes) e),
)

unfoldable pub object_oid_eq : ObjectOid → ObjectOid → Bool
object_oid_eq a b = list_eq a.bytes b.bytes

pub object_oid_eq_iff : (a b : ObjectOid) → (object_oid_eq a b ≡ true) ↔ (a ≡ b)
unfolding object_oid_eq
object_oid_eq_iff a b = (
  λ h. λ i. record { bytes = (list_eq_iff a.bytes b.bytes).0 h i },
  λ e. (list_eq_iff a.bytes b.bytes).1 (ap (λ (c : ObjectOid). c.bytes) e),
)

instance abbrev pub chunk_id_Eq : Eq ChunkId
chunk_id_Eq = record { same = chunk_id_eq; same_iff = chunk_id_eq_iff }

instance abbrev pub object_oid_Eq : Eq ObjectOid
object_oid_Eq = record { same = object_oid_eq; same_iff = object_oid_eq_iff }

-- The `hex` crate: `encode`, and `decode_to_slice` into as many bytes as the second argument says.
pub record Hex : Type 1 where
  pub FromHexError : Type 0
  pub encode : List ℕ → List ℕ
  pub decode_to_slice : List ℕ → ℕ → Result (List ℕ) FromHexError

pub data DigestParseError (E : Type 0) : Type 0 where
  length_error : ℕ → DigestParseError E
  hex_error : E → DigestParseError E

module _ (hex : Hex) where
  open hex use {FromHexError, encode, decode_to_slice}

  -- `Display`
  unfoldable pub display : ObjectOid → List ℕ
  display o = encode o.bytes

  abbrev from_bytes :
      Result (List ℕ) FromHexError → Result ObjectOid (DigestParseError FromHexError)
  from_bytes (ok bytes) = ok (record { bytes = bytes })
  from_bytes (err e) = err (hex_error e)

  -- `FromStr`
  unfoldable pub from_str : List ℕ → Result ObjectOid (DigestParseError FromHexError)
  from_str value = do
    refuse_if (not (nat_eq (length value) digest_hex_length)) (length_error (length value))
    from_bytes (decode_to_slice value digest_bytes)
