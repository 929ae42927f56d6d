-- ===== src/Relations/Identity/Tests.antt =====
-- Runs of the resolution on a store with two chains.
use oh_my_document.Prelude.{
  true, false, List, [], ◌∷◌, Text, text_eq, text_beq, none, some, ok, err, err, codes, contains,
  starts_with, ◌≡◌, ◌↔◌, ◌⊎◌, split_once, all, refl, arith,
}
use oh_my_document.Prelude.Maps.{lookup, keys, contains_key}
use oh_my_document.Records.Json.{string}
use oh_my_document.Records.Commit.{Commit, commit, init, validate}
use oh_my_document.Records.Crates.{Crates}
use oh_my_document.Records.Store.{Store, default_state, read_commit}
use oh_my_document.Relations.Identity.{Ref, range, file, key, from_str, ancestry_cycle}
use mathlib.Core.Option
use mathlib.Core.Option.{Option}
use oh_my_document.Relations.Node.{range_key, parent_of, path_of}
use oh_my_document.Relations.Range.{Range, text}
use oh_my_document.Relations.Node.Position.{position_value}
use oh_my_document.Relations.Node.Decimal.{position_from_value-position_value}
use oh_my_document.Relations.Identity.Effective.{
  Body, EffectiveRangeState, effective_range_state, body_from, body_or, body_of,
}
use oh_my_document.Relations.Identity.Bodies.{Newest, effective_range_state-Newest}
use oh_my_document.Relations.Identity.Ancestry.{
  resolve_commit_id, chain_root, authoritative_object, commit_to_node, resolve_version_on_chain,
  AuthoritativeObject, chain_from, describe, kind_of_root, payload_text, location_along,
  location_after, turns, read_or_missing, kind_for_root, key_for,
}
use oh_my_document.Relations.Identity.Roots.{
  Ends, chain_root-end, root, child, Passes, begins, follows, chain_root-cycle_iff,
}
use oh_my_document.Relations.Identity.Prefixes.{resolve_commit_id_iff}
use oh_my_document.Relations.Identity.Resolve.{commit_to_node-resolve_version_on_chain}

abbrev sample_ref : Ref
sample_ref = record { kind = range; id = codes "ab:c" }

from_str-run : from_str (codes "range:ab:c") ≡ ok sample_ref
unfolding from_str split_once oh_my_document.Relations.Identity.parse_kind text_beq
from_str-run = refl

instance abbrev lax : Crates
lax = record {
  is_rfc3339 = λ s. true;
  hex_decode = λ s. some s;
  sha256 = λ s. s;
  hex_encode = λ s. s;
}

abbrev first : Commit
first = record {
  id = none;
  salt = codes "0123456789abcdef";
  previous_id = [];
  timestamp = codes "2026-01-01T00:00:00Z";
  schema = codes "omd.commit/3";
  kind = init;
  content_ref = codes "empty";
  payload = (codes "path", string (codes "a.md")) ∷ [];
  range_tips = [];
}

abbrev second : Commit
second = record first { previous_id = codes "A"; kind = commit }

abbrev sample : Store
sample = record {
  state = record default_state { retained = codes "A" ∷ codes "B" ∷ [] };
  commits = (codes "A", first) ∷ (codes "B", second) ∷ [];
}

first_read : read_commit sample (codes "A") ≡ ok first
unfolding read_commit lookup text_beq validate oh_my_document.Records.Commit.salt_bytes
    oh_my_document.Records.Commit.is_alphanumeric oh_my_document.Records.Commit.check_allowed
    oh_my_document.Records.Commit.check_required oh_my_document.Records.Commit.allowed_payload_keys
    oh_my_document.Records.Commit.required_payload_keys keys contains_key contains all
first_read = refl

second_read : read_commit sample (codes "B") ≡ ok second
unfolding read_commit lookup text_beq validate oh_my_document.Records.Commit.salt_bytes
    oh_my_document.Records.Commit.is_alphanumeric oh_my_document.Records.Commit.check_allowed
    oh_my_document.Records.Commit.check_required oh_my_document.Records.Commit.allowed_payload_keys
    oh_my_document.Records.Commit.required_payload_keys keys contains_key contains all
second_read = refl

resolve_commit_id_iff_example : (resolve_commit_id sample (codes "B") ≡ ok (codes "B")) ↔ (
    (contains (codes "B") sample.state.retained ≡ true)
    × ((codes "B" ≡ codes "B")
        ⊎ ((contains (codes "B") sample.state.retained ≡ false)
            × (starts_with (codes "B") (codes "B") ≡ true)
            × ((k : Text)
                → contains k sample.state.retained ≡ true
                → starts_with (codes "B") k ≡ true
                → k ≡ codes "B"))))
resolve_commit_id_iff_example = resolve_commit_id_iff sample (codes "B") (codes "B")

second-Ends : Ends sample (codes "B") (codes "B") 1 (ok (codes "A"))
second-Ends =
    child (codes "B") second 0 (ok (codes "A")) second_read (λ e. absurd (ground (arith, e)))
      (root (codes "A") first first_read refl)

second_root : chain_root sample (codes "B") ≡ ok (codes "A")
second_root = chain_root-end sample (codes "B") 1 (ok (codes "A")) second-Ends

chain_root-end_example : chain_root sample (codes "B") ≡ ok (codes "A")
chain_root-end_example = chain_root-end sample (codes "B") 1 (ok (codes "A")) second-Ends

-- Two records, each the predecessor of the other.
abbrev looped : Store
looped = record sample {
  commits = (codes "A", record first { previous_id = codes "B" }) ∷ (codes "B", second) ∷ [];
}

looped_read : read_commit looped (codes "B") ≡ ok second
unfolding read_commit lookup text_beq validate oh_my_document.Records.Commit.salt_bytes
    oh_my_document.Records.Commit.is_alphanumeric oh_my_document.Records.Commit.check_allowed
    oh_my_document.Records.Commit.check_required oh_my_document.Records.Commit.allowed_payload_keys
    oh_my_document.Records.Commit.required_payload_keys keys contains_key contains all
looped_read = refl

looped_first : read_commit looped (codes "A") ≡ ok (record first { previous_id = codes "B" })
unfolding read_commit lookup text_beq validate oh_my_document.Records.Commit.salt_bytes
    oh_my_document.Records.Commit.is_alphanumeric oh_my_document.Records.Commit.check_allowed
    oh_my_document.Records.Commit.check_required oh_my_document.Records.Commit.allowed_payload_keys
    oh_my_document.Records.Commit.required_payload_keys keys contains_key contains all
looped_first = refl

looped_again : contains (codes "A") (codes "B" ∷ codes "A" ∷ []) ≡ true
unfolding contains text_beq
looped_again = refl

looped_new : contains (codes "B") (codes "A" ∷ []) ≡ false
unfolding contains text_beq
looped_new = refl

chain_root-cycle_iff_example :
    (chain_root looped (codes "A") ≡ err (ancestry_cycle (codes "A"))) ↔ (
      (passed : List Text) × Passes looped (codes "A") passed (codes "A")
      × (contains (codes "A") passed ≡ true))
chain_root-cycle_iff_example = chain_root-cycle_iff looped (codes "A") (codes "A")

looped_root : chain_root looped (codes "A") ≡ err (ancestry_cycle (codes "A"))
looped_root = (chain_root-cycle_iff looped (codes "A") (codes "A")).1 (
  codes "B" ∷ codes "A" ∷ [],
  follows (codes "A" ∷ []) (codes "B") second
      (follows [] (codes "A") (record first { previous_id = codes "B" }) begins
        (unfold contains in refl) looped_first (λ e. absurd (ground (arith, e))))
      looped_new looped_read (λ e. absurd (ground (arith, e))),
  looped_again,
)

abbrev object : AuthoritativeObject
object = record {
  kind = file;
  root_commit_id = codes "A";
  location = some (codes "a.md");
  parent = none;
}

object_found : authoritative_object sample (codes "B") ≡ ok object
unfolding authoritative_object chain_from describe kind_of_root payload_text location_along
    location_after turns read_or_missing contains keys text_beq lookup
    oh_my_document.Records.Json.as_str mathlib.Core.Option.bind
object_found = rw (second_read, first_read) refl

first_object : authoritative_object sample (codes "A") ≡ ok object
unfolding authoritative_object chain_from describe kind_of_root payload_text location_along
    location_after turns read_or_missing contains keys text_beq lookup
    oh_my_document.Records.Json.as_str mathlib.Core.Option.bind
first_object = rw first_read refl

node_found : commit_to_node sample (codes "B") ≡ ok (codes "file:A", codes "A")
unfolding commit_to_node resolve_commit_id contains text_beq kind_for_root key_for
    oh_my_document.Relations.Node.file_key
node_found = rw (second_root, first_object) refl

commit_to_node-resolve_version_on_chain_example :
    (selected : Text) × (resolve_commit_id sample (codes "B") ≡ ok selected)
    × (resolve_version_on_chain sample (codes "file:A") (codes "B") ≡ ok selected)
commit_to_node-resolve_version_on_chain_example =
    commit_to_node-resolve_version_on_chain sample (codes "B") (codes "file:A") (codes "A")
      node_found

abbrev seven_on : Range
seven_on = record { start = 7; end = 120; mode = text }

-- A range whose newest record is a structural one, so that its body is the one below.
abbrev bodied : Commit
bodied = record first {
  content_ref = codes "0123456789abcdef";
  payload =
      (codes "path", string (codes "a.md")) ∷ (codes "position", position_value seven_on) ∷ [];
}

abbrev ranged : Store
ranged = record {
  state = record default_state {
    tips = (codes "range:A", codes "B") ∷ [];
    mounts = (codes "file:F", codes "range:A" ∷ []) ∷ [];
    locations = (codes "file:F", codes "a.md") ∷ [];
  };
  commits = (codes "A", bodied) ∷ (codes "B", second) ∷ [];
}

bodied_read : read_commit ranged (codes "A") ≡ ok bodied
unfolding read_commit lookup text_beq validate oh_my_document.Records.Commit.salt_bytes
    oh_my_document.Records.Commit.is_alphanumeric oh_my_document.Records.Commit.check_allowed
    oh_my_document.Records.Commit.check_required oh_my_document.Records.Commit.allowed_payload_keys
    oh_my_document.Records.Commit.required_payload_keys oh_my_document.Records.Id.from_hex
    oh_my_document.Records.Commit.is_version_hex keys contains_key contains all
bodied_read = refl

tip_read : read_commit ranged (codes "B") ≡ ok second
unfolding read_commit lookup text_beq validate oh_my_document.Records.Commit.salt_bytes
    oh_my_document.Records.Commit.is_alphanumeric oh_my_document.Records.Commit.check_allowed
    oh_my_document.Records.Commit.check_required oh_my_document.Records.Commit.allowed_payload_keys
    oh_my_document.Records.Commit.required_payload_keys keys contains_key contains all
tip_read = refl

abbrev effective : EffectiveRangeState
effective = record {
  node_key = codes "range:A";
  root_commit_id = codes "A";
  tip_id = codes "B";
  effective_range_commit_id = some (codes "A");
  source_version_id = some (codes "0123456789abcdef");
  range_ = some seven_on;
  current_parent_key = codes "file:F";
  current_path = codes "a.md";
}

ranged_root : chain_root ranged (codes "B") ≡ ok (codes "A")
ranged_root = chain_root-end ranged (codes "B") 1 (ok (codes "A")) (
    child (codes "B") second 0 (ok (codes "A")) tip_read (λ e. absurd (ground (arith, e)))
      (root (codes "A") bodied bodied_read refl))

body_read : body_of bodied ≡ some seven_on
unfolding body_of lookup text_beq Option.bind
body_read = position_from_value-position_value seven_on (omega arith) (omega arith)

no_body : body_of second ≡ none
unfolding body_of text_beq
no_body = refl

body_found :
    body_from ranged 3 [] (codes "B") ≡ ok (some (codes "A", codes "0123456789abcdef", seven_on))
unfolding body_from body_or contains text_beq
body_found = rw (tip_read, bodied_read, no_body, body_read) refl

effective_found : effective_range_state ranged (codes "range:A") ≡ ok effective
unfolding effective_range_state oh_my_document.Relations.Node.is_range_key
    oh_my_document.Relations.Node.range_key starts_with lookup text_beq contains
    oh_my_document.Relations.Node.parent_of oh_my_document.Relations.Node.parent_in
    oh_my_document.Relations.Node.path_of turns keys
effective_found = rw (ranged_root, body_found) refl

effective_range_state-Newest_example :
    (lookup (codes "range:A") ranged.state.tips ≡ some (codes "B"))
    × (chain_root ranged (codes "B") ≡ ok (codes "A"))
    × (range_key (codes "A") ≡ codes "range:A")
    × (parent_of ranged.state (codes "range:A") ≡ some (codes "file:F"))
    × (path_of ranged.state (codes "file:F") ≡ some (codes "a.md"))
    × ((b : Option Body) × Newest ranged (codes "B") b
        × (some (codes "A") ≡ Option.map (λ (x : Body). x.0) b)
        × (some (codes "0123456789abcdef") ≡ Option.map (λ (x : Body). x.1) b)
        × (effective.range_ ≡ Option.map (λ (x : Body). x.2) b))
effective_range_state-Newest_example =
    effective_range_state-Newest ranged (codes "range:A") effective effective_found
