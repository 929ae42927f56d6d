-- ===== src/Relations/Identity.antt =====
-- src/relations/identity.rs: references to objects, and the errors of their resolution.
pub mod Ancestry
mod Names
mod Walks
mod Roots
pub mod Named
mod Prefixes
mod Resolve
pub mod Effective
mod Bodies
mod Tests
use oh_my_document.Prelude.{
  Bool, true, false, List, [], ◌∷◌, ◌++◌, Text, text_eq, Option, none, some, Result, ok, err, ◌>>=◌,
  ok_or, codes, is_empty, if◌then◌else◌, ◌==◌, split_once,
}

pub data Kind : Type 0 where
  file range peer audit note : Kind

pub record Ref : Type 0 where
  pub kind : Kind
  pub id : Text

pub data RefError : Type 0 where
  bad_form : RefError
  unknown_node unknown_version ambiguous_version ancestry_cycle not_retained not_range :
      Text → RefError
  missing_predecessor version_mismatch kind_mismatch : Text → Text → RefError

unfoldable pub kind_name : Kind → Text
kind_name file = codes "file"
kind_name range = codes "range"
kind_name peer = codes "peer"
kind_name audit = codes "audit"
kind_name note = codes "note"

unfoldable pub parse_kind : Text → Option Kind
parse_kind s =
    if s == codes "file"
    then some file
    else if s == codes "range"
    then some range
    else if s == codes "peer"
    then some peer
    else if s == codes "audit"
    then some audit
    else if s == codes "note"
    then some note
    else none

-- `Display`.
unfoldable pub key : Ref → Text
key r = kind_name r.kind ++ (codes ":" ++ r.id)

-- `FromStr`.
unfoldable pub from_str : Text → Result RefError Ref
from_str s = ok_or (split_once b':' s) bad_form >>= λ (kind, id).
    ok_or (parse_kind kind) bad_form >>= λ kind.
    if is_empty id then err bad_form else ok (record { kind = kind; id = id })
