-- ===== src/Records/Canonical.antt =====
-- src/records/id.rs and src/records/commit.rs: the canonical payload, its bytes, and the id that is
-- derived from them.
mod Tests
use oh_my_document.Prelude.{
  map, List, [], ◌∷◌, ◌++◌, Text, text_eq, text_ltb, codes, Result, ok, err, ◌>>=◌, is_empty,
  if◌then◌else◌, ◌==◌,
}
use oh_my_document.Prelude.Maps.{Map, insert}
use oh_my_document.Records.Json.{
  Value, Items, Fields, Payload, null, boolean, number, string, array, object, nil, cons, done,
  field,
}
use oh_my_document.Records.Id.{Bytes, from_hex, derive_commit_id}
use oh_my_document.Records.Commit.{Commit, CommitError, kind_name, salt_bytes}
use oh_my_document.Records.Crates.{Crates}

pub record OperationPayload : Type 0 where
  pub kind : Text
  pub schema : Text
  -- `ContentRef::as_json`.
  pub content_ref : Text
  pub fields : Payload

-- `Id128([0; 16])`.
abbrev pub zero_id : Bytes
zero_id = 0 ∷ 0 ∷ 0 ∷ 0 ∷ 0 ∷ 0 ∷ 0 ∷ 0 ∷ 0 ∷ 0 ∷ 0 ∷ 0 ∷ 0 ∷ 0 ∷ 0 ∷ 0 ∷ []

unfoldable pub fields_of : Payload → Fields
fields_of [] = done
fields_of ((k, v) ∷ m) = field k v (fields_of m)

unfoldable pub tips_of : Map Text → Fields
tips_of [] = done
tips_of ((k, v) ∷ m) = field k (string v) (tips_of m)

-- `keys.sort()`, with the bytes of the values.
unfoldable pub insert_member : Text → Bytes → List (Text × Bytes) → List (Text × Bytes)
insert_member k v [] = (k, v) ∷ []
insert_member k v ((j, w) ∷ ms) =
    let later = (j, w) ∷ insert_member k v ms in
    if text_ltb k j then (k, v) ∷ (j, w) ∷ ms else later

-- A comma before every item but the first.
unfoldable pub join : List Bytes → Bytes
join [] = []
join (x ∷ []) = x
join (x ∷ y ∷ rest) = x ++ (codes "," ++ join (y ∷ rest))

-- `quote` is `serde_json::to_string` of a text.
module _ (quote : Text → Bytes) where
  unfoldable pub member : Text × Bytes → Bytes
  member (k, v) = quote k ++ (codes ":" ++ v)

  -- The bytes of a value. Those of an object's values are made before its keys are sorted.
  unfoldable mutual
    pub jcs : Value → Bytes
    jcs null = codes "null"
    jcs (boolean b) = if b then codes "true" else codes "false"
    jcs (number n) = n
    jcs (string s) = quote s
    jcs (array items) = codes "[" ++ (join (jcs_items items) ++ codes "]")
    jcs (object fs) = codes "{" ++ (join (map member (jcs_members fs)) ++ codes "}")

    pub jcs_items : Items → List Bytes
    jcs_items nil = []
    jcs_items (cons v items) = jcs v ∷ jcs_items items

    pub jcs_members : Fields → List (Text × Bytes)
    jcs_members done = []
    jcs_members (field k v fs) = insert_member k (jcs v) (jcs_members fs)

  unfoldable pub canonical_payload_bytes : OperationPayload → Bytes
  canonical_payload_bytes p = jcs (
      object (
        fields_of (
          insert (codes "schema") (string p.schema) (
            insert (codes "kind") (string p.kind)
              (insert (codes "content_ref") (string p.content_ref) p.fields)))))

module _ ⦃crates : Crates⦄ where
  -- `parse_content_ref` and `ContentRef::as_json`: an id that is no hexadecimal one becomes zeros.
  unfoldable pub parse_content_ref : Text → Text
  parse_content_ref s =
      if s == codes "empty" then codes "empty" else elim (from_hex crates.hex_decode 16 s) [
        | ok id ↦ crates.hex_encode id
        | err _ ↦ crates.hex_encode zero_id
      ]

  unfoldable pub canonical_payload : Commit → OperationPayload
  canonical_payload c = record {
    kind = kind_name c.kind;
    schema = c.schema;
    content_ref = parse_content_ref c.content_ref;
    fields =
        if is_empty c.range_tips
        then c.payload
        else insert (codes "range_tips") (object (tips_of c.range_tips)) c.payload;
  }

  -- `utf8` gives the bytes of a text.
  unfoldable pub derive_id :
      (quote utf8 : Text → Bytes) → Commit → (content : Bytes) → Result CommitError Bytes
  derive_id quote utf8 c content = salt_bytes c.salt >>= λ salt. ok (
      derive_commit_id crates.sha256 salt (utf8 c.previous_id) (utf8 c.timestamp) content
        (canonical_payload_bytes quote (canonical_payload c)))
