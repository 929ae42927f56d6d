-- ===== src/Records/Commit.antt =====
-- src/records/commit.rs: commit records, the payload keys of each kind, and validation.
mod Laws
mod Tests
use oh_my_document.Prelude.{
  ℕ, ◌+◌, ◌<◌, Bool, true, false, not, ◌&&◌, ◌||◌, List, [], ◌∷◌, ◌++◌, length, leb, if◌then◌else◌,
  Text, text_eq, Option, none, some, is_none, Result, ok, err, ◌>>=◌, ◌>>◌, refuse_if, ◌==◌, nat_eq,
  contains, all, codes, is_empty, Eq, ◌≡◌, ◌↔◌, arith,
}
use oh_my_document.Prelude.Maps.{Map, keys, contains_key}
use oh_my_document.Records.Json.{Value, string, object, Fields, done, field, Payload}
use oh_my_document.Records.Id.{Bytes, from_hex, derive_commit_id}

pub data CommitKind : Type 0 where
  init commit clean unclean atomic_begin atomic_end link adapt rename delete import remove
        scope_adjust tag file_verify reset audit_init audit_patch note_init note_patch :
      CommitKind

pub record Commit : Type 0 where
  pub id : Option Bytes
  pub salt : Text
  pub previous_id : Text
  pub timestamp : Text
  pub schema : Text
  pub kind : CommitKind
  pub content_ref : Text
  pub payload : Payload
  pub range_tips : Map Text

pub data CommitError : Type 0 where
  bad_salt bad_timestamp bad_first_previous : CommitError
  bad_schema projection unknown_field missing_field : Text → CommitError

unfoldable pub kind_name : CommitKind → Text
kind_name init = codes "init"
kind_name commit = codes "commit"
kind_name clean = codes "clean"
kind_name unclean = codes "unclean"
kind_name atomic_begin = codes "atomic_begin"
kind_name atomic_end = codes "atomic_end"
kind_name link = codes "link"
kind_name adapt = codes "adapt"
kind_name rename = codes "rename"
kind_name delete = codes "delete"
kind_name import = codes "import"
kind_name remove = codes "remove"
kind_name scope_adjust = codes "scope_adjust"
kind_name tag = codes "tag"
kind_name file_verify = codes "file_verify"
kind_name reset = codes "reset"
kind_name audit_init = codes "audit_init"
kind_name audit_patch = codes "audit_patch"
kind_name note_init = codes "note_init"
kind_name note_patch = codes "note_patch"

abbrev content_keys : List Text
content_keys =
    codes "path"
    ∷ codes "position"
    ∷ codes "reason"
    ∷ codes "no_reason"
    ∷ codes "expected"
    ∷ codes "link_id"
    ∷ codes "changes"
    ∷ codes "stop"
    ∷ codes "mount"
    ∷ codes "in_block"
    ∷ codes "classification"
    ∷ []

abbrev marker_keys : List Text
marker_keys = codes "path" ∷ codes "chain" ∷ codes "mount" ∷ []

abbrev scope_keys : List Text
scope_keys = codes "path" ∷ codes "include" ∷ codes "exclude" ∷ codes "scope" ∷ []

unfoldable pub allowed_payload_keys : CommitKind → List Text
allowed_payload_keys init = codes "path" ∷ codes "position" ∷ []
allowed_payload_keys commit = content_keys
allowed_payload_keys clean = content_keys
allowed_payload_keys unclean = content_keys
allowed_payload_keys file_verify = content_keys
allowed_payload_keys atomic_begin = marker_keys
allowed_payload_keys atomic_end = marker_keys
allowed_payload_keys audit_init =
    codes "seed" ∷ codes "direction" ∷ codes "text" ∷ codes "conclusion" ∷ []
allowed_payload_keys audit_patch = codes "conclusion" ∷ codes "text" ∷ []
allowed_payload_keys note_init = codes "target" ∷ codes "text" ∷ []
allowed_payload_keys note_patch = codes "kind" ∷ codes "target" ∷ codes "text" ∷ []
allowed_payload_keys link =
    codes "path"
    ∷ codes "link_id"
    ∷ codes "source"
    ∷ codes "source_version"
    ∷ codes "target"
    ∷ codes "target_version"
    ∷ codes "reason"
    ∷ codes "peer_store_id"
    ∷ codes "peer_link_id"
    ∷ []
allowed_payload_keys adapt =
    codes "path"
    ∷ codes "link_id"
    ∷ codes "changes"
    ∷ codes "reason"
    ∷ codes "no_reason"
    ∷ codes "stop"
    ∷ []
allowed_payload_keys rename = codes "path" ∷ codes "source" ∷ codes "target" ∷ codes "reason" ∷ []
allowed_payload_keys delete = codes "path" ∷ codes "source" ∷ codes "reason" ∷ []
allowed_payload_keys import = scope_keys
allowed_payload_keys remove = scope_keys
allowed_payload_keys scope_adjust =
    codes "path"
    ∷ codes "include"
    ∷ codes "exclude"
    ∷ codes "rule"
    ∷ codes "level"
    ∷ codes "skip"
    ∷ []
allowed_payload_keys tag = codes "path" ∷ codes "tag" ∷ []
allowed_payload_keys reset =
    codes "path" ∷ codes "requested" ∷ codes "actual" ∷ codes "warning" ∷ []

unfoldable pub required_payload_keys : CommitKind → List Text
required_payload_keys init = codes "path" ∷ []
required_payload_keys import = codes "path" ∷ []
required_payload_keys remove = codes "path" ∷ []
required_payload_keys link = codes "link_id" ∷ codes "source" ∷ codes "target" ∷ []
required_payload_keys adapt = codes "link_id" ∷ codes "changes" ∷ []
required_payload_keys rename = codes "source" ∷ codes "target" ∷ []
required_payload_keys delete = codes "source" ∷ []
required_payload_keys tag = codes "path" ∷ codes "tag" ∷ []
required_payload_keys reset = codes "requested" ∷ codes "actual" ∷ []
required_payload_keys audit_init =
    codes "seed" ∷ codes "direction" ∷ codes "text" ∷ codes "conclusion" ∷ []
required_payload_keys audit_patch = codes "conclusion" ∷ []
required_payload_keys note_init = codes "target" ∷ codes "text" ∷ []
required_payload_keys note_patch = codes "kind" ∷ codes "target" ∷ []
required_payload_keys atomic_begin = []
required_payload_keys atomic_end = []
required_payload_keys commit = []
required_payload_keys clean = []
required_payload_keys unclean = []
required_payload_keys file_verify = []
required_payload_keys scope_adjust = []

-- `is_ascii_alphanumeric`.
unfoldable pub is_alphanumeric : ℕ → Bool
is_alphanumeric b =
    (leb b'0' b && leb b b'9') || (leb b'A' b && leb b b'Z') || (leb b'a' b && leb b b'z')

-- A text with a character outside ASCII fails the test of its bytes as it fails this one.
unfoldable pub salt_bytes : Text → Result CommitError Bytes
salt_bytes s = if not (length s == 16) || not (all is_alphanumeric s) then err bad_salt else ok s

-- The two loops over payload keys.
unfoldable pub check_allowed : List Text → List Text → Result CommitError (Unit {0})
check_allowed allowed [] = ok tt
check_allowed allowed (k ∷ ks) =
    let rest = check_allowed allowed ks in
    if not (contains k allowed) then err (unknown_field k) else rest

unfoldable pub check_required : Payload → List Text → Result CommitError (Unit {0})
check_required payload [] = ok tt
check_required payload (k ∷ ks) =
    let rest = check_required payload ks in
    if not (contains_key k payload) then err (missing_field k) else rest

-- `is_rfc3339` is the parser of the crate `time`, `hex_decode` that of the crate `hex`.
module _ (is_rfc3339 : Text → Bool) (hex_decode : Text → Option Bytes) where
  parse_timestamp : Text → Result CommitError (Unit {0})
  parse_timestamp s = refuse_if (not (is_rfc3339 s)) bad_timestamp

  unfoldable pub is_version_hex : Text → Bool
  is_version_hex s = elim (from_hex hex_decode 16 s) [ ok _ ↦ true | err _ ↦ false ]

  unfoldable pub validate : Commit → Bool → Result CommitError (Unit {0})
  unfolding parse_timestamp
  validate c is_first = do
    _ ← salt_bytes c.salt
    parse_timestamp c.timestamp
    refuse_if (not (c.schema == codes "omd.commit/3")) (bad_schema c.schema)
    refuse_if (is_first && not (is_empty c.previous_id)) bad_first_previous
    refuse_if (not (c.content_ref == codes "empty") && not (is_version_hex c.content_ref))
        (projection (codes "content_ref"))
    check_allowed (allowed_payload_keys c.kind) (keys c.payload)
    check_required c.payload (required_payload_keys c.kind)
