-- ===== src/Records/Id.antt =====
-- src/records/id.rs: the input of the hash from which a commit id is derived, and salts.
mod Framing
mod Tests
use oh_my_document.Prelude.{
  ℕ, ◌+◌, ◌-◌, ◌*◌, ◌/◌, ◌%◌, ◌^◌, ◌<◌, List, [], ◌∷◌, ◌++◌, map, length, ltb, if◌then◌else◌, Text,
  Option, none, some, Result, ok, err, ◌==◌, nat_eq, not, get_elem?, unwrap_or, codes,
}

abbrev pub Bytes : Type 0
Bytes = List ℕ

-- `(n as u64).to_be_bytes()`.
unfoldable pub be_bytes : ℕ → Bytes
be_bytes n =
    n / 2 ^ 56 % 256
    ∷ n / 2 ^ 48 % 256
    ∷ n / 2 ^ 40 % 256
    ∷ n / 2 ^ 32 % 256
    ∷ n / 2 ^ 24 % 256
    ∷ n / 2 ^ 16 % 256
    ∷ n / 2 ^ 8 % 256
    ∷ n % 256
    ∷ []

-- What `frame` appends to the buffer.
unfoldable pub frame : Bytes → Bytes
frame bytes = be_bytes (length bytes) ++ bytes

pub data IdError : Type 0 where
  bad_hex bad_length : IdError

-- `CommitId::from_hex` and `Id128::from_hex`: `hex::decode` is the crate's.
unfoldable pub from_hex : (Text → Option Bytes) → ℕ → Text → Result IdError Bytes
from_hex hex_decode size s = elim (hex_decode s) [
  | none ↦ err bad_hex
  | some b ↦ if not (length b == size) then err bad_length else ok b
]

-- The buffer that is hashed, the texts as their bytes.
unfoldable pub preimage : Bytes → Bytes → Bytes → Bytes → Bytes → Bytes
preimage salt previous timestamp content payload =
    salt ++ (frame previous ++ (frame timestamp ++ (frame content ++ frame payload)))

unfoldable pub derive_commit_id : (Bytes → Bytes) → Bytes → Bytes → Bytes → Bytes → Bytes → Bytes
derive_commit_id sha256 salt previous timestamp content payload =
    sha256 (preimage salt previous timestamp content payload)

abbrev pub alphabet : Bytes
alphabet = codes "ABCDEFGHIJKLMNOPQRSTUVWXYZabcdefghijklmnopqrstuvwxyz0123456789"

unfoldable pub salt_char : ℕ → ℕ
salt_char b = unwrap_or (get_elem? alphabet (b % 62)) 0

unfoldable pub salt_from_bytes : Bytes → Bytes
unfolding salt_char
salt_from_bytes bytes = map salt_char bytes
