-- ===== src/Records/Publish/Prepare.antt =====
-- What the steps before the rename leave: the records, and the new state in its temporary file.
use oh_my_document.Prelude.{Bool, ◌++◌, Text, text_eq, text_beq, Option, none, some, codes, refl}
use oh_my_document.Records.Id.{Bytes}
use oh_my_document.Records.Crates.{Crates}
use oh_my_document.Records.Commit.{Commit}
use oh_my_document.Records.Version.{SourceVersion, content_sha256}
use oh_my_document.Records.Store.{State}
use oh_my_document.Records.Publish.{
  Stage, write_records, sync_records, write_temp_state, sync_temp_state, rename_state, Toml, Step,
  ◌▷◌, write_file, write_immutable, at, with_text, append_published, commit_path, write_version,
  write_content, prepare,
}
use oh_my_document.Records.Publish.Atomicity.{
  Safe, ▷-Safe, write_file-Safe, write_immutable-Safe, at-Safe, with_text-Safe,
  append_published-Safe, unchanged,
}
use oh_my_document.Records.Publish.Steps.{
  Yields, ▷-second, ▷-first, Holds, at-Holds, write_file-Holds, ▷-Holds, Recorded,
  write_immutable-Recorded, Recorded-Safe, commit_path-fresh, commit_path-is_record,
  commit_path-other, tmp_path,
}

module _ ⦃crates : Crates⦄ (toml : Toml) (probe : Stage → Bool) where
  write_version-Safe : (version : Option SourceVersion) → Safe (write_version toml version)
  unfolding Safe write_version
  write_version-Safe none d = unchanged d
  write_version-Safe (some v) d =
      (with_text-Safe (toml.version_text v)
          (write_immutable (codes "versions/" ++ (crates.hex_encode v.id ++ codes ".toml")))
          (λ bytes. write_immutable-Safe _ bytes (unfold text_beq in refl)))
        d

  write_content-Safe : (content : Option Bytes) → Safe (write_content content)
  unfolding Safe write_content
  write_content-Safe none d = unchanged d
  write_content-Safe (some c) d =
      write_immutable-Safe (codes "content/" ++ content_sha256 c) c (unfold text_beq in refl) d

  -- The steps behind the commit record, in their order.
  abbrev temp_state : State → Step
  temp_state new_state =
      with_text (toml.state_text new_state) (write_file (codes "state.toml.tmp"))
      ▷ (at probe sync_temp_state ▷ at probe rename_state)

  abbrev behind_commit : Text → Option SourceVersion → Option Bytes → State → Step
  behind_commit commit_id version content new_state =
      at probe sync_records
      ▷ write_version toml version
      ▷ write_content content
      ▷ append_published commit_id
      ▷ at probe write_temp_state
      ▷ temp_state new_state

  temp_state-Safe : (new_state : State) → Safe (temp_state new_state)
  temp_state-Safe new_state =
      ▷-Safe _ _
        (with_text-Safe (toml.state_text new_state) _
          (λ bytes. write_file-Safe (codes "state.toml.tmp") bytes tmp_path.0 tmp_path.1))
        (▷-Safe _ _ (at-Safe probe sync_temp_state) (at-Safe probe rename_state))

  behind_commit-Safe :
      (commit_id : Text) (version : Option SourceVersion) (content : Option Bytes)
      (new_state : State)
      → Safe (behind_commit commit_id version content new_state)
  behind_commit-Safe commit_id version content new_state = ▷-Safe _ _ (at-Safe probe sync_records) (
      ▷-Safe _ _ (write_version-Safe version) (
        ▷-Safe _ _ (write_content-Safe content) (
          ▷-Safe _ _ (append_published-Safe commit_id)
            (▷-Safe _ _ (at-Safe probe write_temp_state) (temp_state-Safe new_state)))))

  pub prepare-Safe :
      (commit : Commit) (commit_id : Text) (version : Option SourceVersion) (content : Option Bytes)
      (new_state : State)
      → Safe (prepare toml probe commit commit_id version content new_state)
  unfolding prepare
  prepare-Safe commit commit_id version content new_state =
      ▷-Safe _ _ (at-Safe probe write_records) (
        ▷-Safe _ _
          (with_text-Safe (toml.commit_text commit) _ (λ bytes.
            write_immutable-Safe (commit_path commit_id) bytes (commit_path-other commit_id)))
          (behind_commit-Safe commit_id version content new_state))

  pub prepare-Recorded :
      (commit : Commit) (commit_id : Text) (version : Option SourceVersion) (content : Option Bytes)
      (new_state : State)
      → Yields
          (Recorded (commit_path commit_id) (toml.commit_text commit))
          (prepare toml probe commit commit_id version content new_state)
  unfolding prepare
  prepare-Recorded commit commit_id version content new_state = ▷-second _ _ _ (
      ▷-first _ _ _
        (write_immutable-Recorded (commit_path commit_id) (toml.commit_text commit)
          (commit_path-fresh commit_id))
        (Recorded-Safe (commit_path commit_id) (toml.commit_text commit)
          (behind_commit commit_id version content new_state) (commit_path-is_record commit_id)
          (behind_commit-Safe commit_id version content new_state)))

  pub prepare-Holds :
      (commit : Commit) (commit_id : Text) (version : Option SourceVersion) (content : Option Bytes)
      (new_state : State)
      → Yields
          (Holds (codes "state.toml.tmp") (toml.state_text new_state))
          (prepare toml probe commit commit_id version content new_state)
  unfolding prepare
  prepare-Holds commit commit_id version content new_state = ▷-second _ _ _ (
      ▷-second _ _ _ (
        ▷-second _ _ _ (
          ▷-second _ _ _ (
            ▷-second _ _ _ (
              ▷-second _ _ _ (
                ▷-second _ _ _ (
                  ▷-first _ _ _
                    (write_file-Holds (codes "state.toml.tmp") (toml.state_text new_state))
                    (▷-Holds (Holds (codes "state.toml.tmp") (toml.state_text new_state))
                      (at probe sync_temp_state) (at probe rename_state)
                      (at-Holds (codes "state.toml.tmp") (toml.state_text new_state) probe
                        sync_temp_state)
                      (at-Holds (codes "state.toml.tmp") (toml.state_text new_state) probe
                        rename_state)))))))))
