-- ===== src/Records/Store.antt =====
-- src/records/store.rs: the persisted state, and the store that the other components read.
use oh_my_document.Prelude.{
  ℕ, Bool, false, List, [], Text, Option, none, some, Result, ok, err, codes, is_empty,
}
use oh_my_document.Prelude.Maps.{Map, TextSet, lookup}
use oh_my_document.Relations.Dirty.{DirtyState}
use oh_my_document.Records.Commit.{Commit, validate}
use oh_my_document.Records.Crates.{Crates}

pub record TagRule : Type 0 where
  pub rule : Text
  pub level : Text
  pub skip : Bool

pub record Link : Type 0 where
  pub link_id : Text
  pub source : Text
  pub target : Text
  pub source_version : Text
  pub target_version : Text
  pub created_by : Text

pub record State : Type 0 where
  pub format : Text
  pub publication : ℕ
  pub operation_id : Option Text
  pub tips : Map Text
  pub mounts : Map (List Text)
  pub locations : Map Text
  pub bindings : Map Text
  pub registrations : Map Text
  pub retained : List Text
  pub dirty : Map DirtyState
  pub open_blocks : Map (List Text)
  pub reset_from : Map Text
  pub links : Map Link
  pub link_pending : Map TextSet
  pub tags : Map TextSet
  pub tag_rules : Map TagRule
  pub store_id : Text
  pub activated : Bool
  pub peers : Map Text
  pub inbound : Map Text

abbrev pub default_state : State
default_state = record {
  format = codes "omd.state/9";
  publication = 0;
  operation_id = none;
  tips = [];
  mounts = [];
  locations = [];
  bindings = [];
  registrations = [];
  retained = [];
  dirty = [];
  open_blocks = [];
  reset_from = [];
  links = [];
  link_pending = [];
  tags = [];
  tag_rules = [];
  store_id = [];
  activated = false;
  peers = [];
  inbound = [];
}

pub data StoreError : Type 0 where
  lock io : StoreError
  conflict invalid_record : Text → StoreError

-- The state, and the parsed files below `commits/` by their ids.
pub record Store : Type 0 where
  pub state : State
  pub commits : Map Commit

module _ ⦃crates : Crates⦄ where
  unfoldable pub read_commit : Store → Text → Result StoreError Commit
  read_commit s id = elim (lookup id s.commits) [
    | none ↦ err io
    | some c ↦ elim (validate crates.is_rfc3339 crates.hex_decode c (is_empty c.previous_id)) [
      | ok _ ↦ ok c
      | err _ ↦ err (invalid_record id)
    ]
  ]
