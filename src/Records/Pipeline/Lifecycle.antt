-- ===== src/Records/Pipeline/Lifecycle.antt =====
-- src/records/pipeline.rs, `commit_lifecycle`: a file object is renamed or deleted.
use oh_my_document.Prelude.{
  false, not, [], ◌++◌, Text, Option, none, some, is_some, codes, Result, ok, ◌>>=◌, ◌>>◌, ok_or,
  refuse_if, if◌then◌else◌, unwrap_or,
}
use oh_my_document.Prelude.Maps.{insert, remove}
use oh_my_document.Records.Json.{string, Payload}
use oh_my_document.Records.Crates.{Crates}
use oh_my_document.Records.Commit.{CommitKind, rename, delete}
use oh_my_document.Records.Store.{State, Store}
use oh_my_document.Records.Pipeline.{
  Env, Gate, Publication, PipelineError, input, checked, is_rename, tip_of, advance, tracked_file,
  structural, seal,
}

unfoldable pub lifecycle_payload : Text → Option Text → Text → Payload
lifecycle_payload source_path target_path reason =
    let payload : Payload =
      insert (codes "source") (string source_path)
        (insert (codes "path") (string source_path) []) in
    insert (codes "reason") (string reason) (elim target_path [
      | some target ↦ insert (codes "target") (string target) payload
      | none ↦ payload
    ])

-- `expect("validated rename target")` is never met without one: see `target_free`.
unfoldable pub move_location : CommitKind → Text → Option Text → State → State
move_location rename key target_path state = record state {
  locations = insert key (unwrap_or target_path []) state.locations;
}
move_location delete key target_path state = record state { locations = remove key state.locations }
move_location _ key target_path state = state

module _ ⦃crates : Crates⦄ where
  -- A rename needs a target that is not tracked.
  unfoldable pub target_free : Store → CommitKind → Option Text → Result PipelineError (Unit {0})
  target_free s kind target_path =
      if not (is_rename kind)
      then ok tt
      else (ok_or target_path (input (codes "rename requires target path")) >>= λ target.
          refuse_if (is_some (tracked_file s target))
            (input (codes "rename target is already tracked: " ++ target)))

  -- `tips[&src_key]` panics for a file without a tip; the index that was read has none.
  unfoldable pub commit_lifecycle :
      Env
      → Gate
      → Store
      → CommitKind
      → (source_path : Text) → (target_path : Option Text) → (reason : Text)
      → Result PipelineError Publication
  commit_lifecycle env gate s kind source_path target_path reason = do
    checked gate
    key ← ok_or (tracked_file s source_path) (input (codes "file is not tracked: " ++ source_path))
    target_free s kind target_path
    let c =
        structural env 0 kind (tip_of s.state key)
          (lifecycle_payload source_path target_path reason)
    commit_id ← seal env c false []
    ok (record {
      record_ = c;
      commit_id = commit_id;
      version = none;
      content = none;
      new_state = move_location kind key target_path (advance key commit_id s.state);
      answer = commit_id;
    })
