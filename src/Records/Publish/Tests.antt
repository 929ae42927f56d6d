-- ===== src/Records/Publish/Tests.antt =====
-- A publication that is aborted before the swap, and one that runs through.
use oh_my_document.Prelude.{
  Bool, true, false, List, [], ◌∷◌, ◌++◌, Text, text_eq, text_beq, Option, none, some, codes,
  Result, ok, err, starts_with, ◌≡◌, refl,
}
use oh_my_document.Prelude.Maps.{lookup, insert, remove}
use oh_my_document.Records.Crates.{Crates}
use oh_my_document.Records.Commit.{Commit, init}
use oh_my_document.Records.Store.{State, default_state, StoreError}
use oh_my_document.Records.Publish.{
  Stage, rename_state, Disk, Toml, publish, publish_files, prepare, after, ◌▷◌, at, with_text,
  write_file, write_immutable, append_published, rename_state_file, commit_path, write_version,
  write_content, validate_version, finish,
}
use oh_my_document.Records.Publish.Swap.{IsAtomic, publish-IsAtomic}

instance abbrev lax : Crates
lax = record {
  is_rfc3339 = λ s. true;
  hex_decode = λ s. none;
  sha256 = λ s. s;
  hex_encode = λ s. s;
}

abbrev plain : Toml
plain = record {
  commit_text = λ c. some c.salt;
  version_text = λ v. some v.format;
  state_text = λ s. some s.store_id;
}

abbrev first : Commit
first = record {
  id = none;
  salt = codes "0123456789abcdef";
  previous_id = [];
  timestamp = codes "2026-01-01T00:00:00Z";
  schema = codes "omd.commit/3";
  kind = init;
  content_ref = codes "empty";
  payload = [];
  range_tips = [];
}

abbrev before : Disk
before = record { files = (codes "published", []) ∷ (codes "state.toml", codes "old") ∷ [] }

abbrev next : State
next = record default_state { store_id = codes "new" }

abbrev always : Stage → Bool
always stage = true

abbrev until_rename : Stage → Bool
until_rename stage = elim stage [ rename_state ↦ false | _ ↦ true ]

abbrev done : (Disk × State) × Result StoreError (Unit {0})
done = publish plain always (ok tt) first (codes "A") none none next before default_state

published : lookup (codes "state.toml") done.0.0.files ≡ some (codes "new")
unfolding publish publish_files prepare after ◌▷◌ at with_text write_file write_immutable
    append_published rename_state_file commit_path write_version write_content validate_version
    finish lookup insert remove text_beq oh_my_document.Prelude.Texts.text_ltb
published = refl

-- Aborted before the rename: the state file is the old one, and yet the id stands in the list of
-- published ids.
abbrev aborted : (Disk × State) × Result StoreError (Unit {0})
aborted = publish plain until_rename (ok tt) first (codes "A") none none next before default_state

listed :
    (lookup (codes "state.toml") aborted.0.0.files ≡ some (codes "old"))
    × (lookup (codes "published") aborted.0.0.files ≡ some (codes "A\n"))
unfolding publish publish_files prepare after ◌▷◌ at with_text write_file write_immutable
    append_published rename_state_file commit_path write_version write_content validate_version
    finish lookup insert remove text_beq oh_my_document.Prelude.Texts.text_ltb
listed = (refl, refl)

publish-IsAtomic_example :
    IsAtomic plain until_rename first (codes "A") next before (aborted.0.0, aborted.1)
    × (aborted.0.1 ≡ elim aborted.1 [ ok _ ↦ next | err _ ↦ default_state ])
publish-IsAtomic_example =
    publish-IsAtomic plain until_rename (ok tt) first (codes "A") none none next before
      default_state
