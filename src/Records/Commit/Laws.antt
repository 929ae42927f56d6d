-- ===== src/Records/Commit/Laws.antt =====
-- Which commit records validation accepts.
use oh_my_document.Prelude.{
  Bool, true, List, [], ◌∷◌, length, Text, text_eq, text_beq_iff, Option, ok, nat_eq, contains, all,
  codes, is_empty_iff, sym, ◌∙◌, ◌≡◌, ◌↔◌, ◌⊎◌, refl, arith,
}
use oh_my_document.Prelude.Maps.{keys, contains_key, contains-keys}
use oh_my_document.Records.Json.{Payload}
use oh_my_document.Records.Id.{Bytes}
use oh_my_document.Records.Commit.{
  CommitKind, Commit, init, allowed_payload_keys, required_payload_keys, check_allowed,
  check_required, salt_bytes, is_alphanumeric, validate, is_version_hex,
}

-- Every key that a kind requires is one that it allows: no kind is impossible to write.
pub required-allowed :
    (kind : CommitKind) (k : Text)
    → contains k (required_payload_keys kind) ≡ true
    → contains k (allowed_payload_keys kind) ≡ true
unfolding required_payload_keys allowed_payload_keys contains
required-allowed init k h = ground arith
required-allowed kind k h = ground arith

check_allowed_iff :
    (allowed ks : List Text)
    → (check_allowed allowed ks ≡ ok tt)
      ↔ ((k : Text) → contains k ks ≡ true → contains k allowed ≡ true)
unfolding check_allowed contains
check_allowed_iff allowed [] = (λ _ k h. cc, λ _. refl)
check_allowed_iff allowed (x ∷ ks) =
    let (sound, complete) = check_allowed_iff allowed ks in
    (
      λ h k m. ground (arith, text_beq_iff k x, sound (ground arith) k),
      λ h.
          ground
            (arith, h x (ground (arith, text_beq_iff x x)), complete (λ k m. h k (ground arith))),
    )

check_required_iff :
    (payload : Payload) (ks : List Text)
    → (check_required payload ks ≡ ok tt)
      ↔ ((k : Text) → contains k ks ≡ true → contains_key k payload ≡ true)
unfolding check_required contains
check_required_iff payload [] = (λ _ k h. cc, λ _. refl)
check_required_iff payload (x ∷ ks) =
    let (sound, complete) = check_required_iff payload ks in
    (
      λ h k m. ground (arith, text_beq_iff k x, sound (ground arith) k),
      λ h.
          ground
            (arith, h x (ground (arith, text_beq_iff x x)), complete (λ k m. h k (ground arith))),
    )

module _ (is_rfc3339 : Text → Bool) (hex_decode : Text → Option Bytes) where
  -- What an accepted record looks like.
  pub record IsAccepted (c : Commit) (is_first : Bool) : Type 0 where
    pub salt_length : length c.salt ≡ 16
    pub salt_chars : all is_alphanumeric c.salt ≡ true
    pub timestamp : is_rfc3339 c.timestamp ≡ true
    pub schema : c.schema ≡ codes "omd.commit/3"
    pub first : is_first ≡ true → c.previous_id ≡ []
    pub content :
        (c.content_ref ≡ codes "empty")
        ⊎ (is_version_hex is_rfc3339 hex_decode c.content_ref ≡ true)
    pub closed :
        (k : Text)
        → contains_key k c.payload ≡ true
        → contains k (allowed_payload_keys c.kind) ≡ true
    pub complete :
        (k : Text)
        → contains k (required_payload_keys c.kind) ≡ true
        → contains_key k c.payload ≡ true

  accepted→IsAccepted :
      (c : Commit) (is_first : Bool)
      → validate is_rfc3339 hex_decode c is_first ≡ ok tt
      → IsAccepted c is_first
  unfolding validate salt_bytes
  accepted→IsAccepted c is_first h =
      let allowed = check_allowed_iff (allowed_payload_keys c.kind) (keys c.payload) in
      let required = check_required_iff c.payload (required_payload_keys c.kind) in
      record {
        salt_length = ground arith;
        salt_chars = ground arith;
        timestamp = ground arith;
        schema = ground (arith, text_beq_iff c.schema (codes "omd.commit/3"));
        first = λ e. ground (arith, is_empty_iff c.previous_id);
        content = ground (arith, text_beq_iff c.content_ref (codes "empty"));
        closed = λ k m. allowed.0 (ground arith) k (contains-keys k c.payload ∙ m);
        complete = required.0 (ground arith);
      }

  IsAccepted→accepted :
      (c : Commit) (is_first : Bool)
      → IsAccepted c is_first
      → validate is_rfc3339 hex_decode c is_first ≡ ok tt
  unfolding validate salt_bytes
  IsAccepted→accepted c is_first a =
      let allowed = check_allowed_iff (allowed_payload_keys c.kind) (keys c.payload) in
      let required = check_required_iff c.payload (required_payload_keys c.kind) in
      ground (
        arith,
        text_beq_iff c.schema (codes "omd.commit/3"),
        is_empty_iff c.previous_id,
        text_beq_iff c.content_ref (codes "empty"),
        allowed.1 (λ k m. a.closed k (sym (contains-keys k c.payload) ∙ m)),
        required.1 a.complete,
      )

  -- Validation accepts a record exactly if its salt has sixteen ASCII letters and digits, its
  -- timestamp parses, its schema is the current one, a first record has no predecessor, its
  -- content reference is `empty` or the id of a version, and its payload has only keys that the
  -- kind allows and all that the kind requires.
  pub validate_iff :
      (c : Commit) (is_first : Bool)
      → (validate is_rfc3339 hex_decode c is_first ≡ ok tt) ↔ IsAccepted c is_first
  validate_iff c is_first = (accepted→IsAccepted c is_first, IsAccepted→accepted c is_first)
