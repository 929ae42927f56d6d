-- ===== src/Records/Pipeline/Journal.antt =====
-- src/records/pipeline.rs, `commit_journal`: records of audits and notes.
use oh_my_document.Prelude.{
  Bool, true, false, not, ◌&&◌, [], ◌++◌, Text, text_eq, none, codes, Result, ok, ◌>>=◌, ◌>>◌,
  refuse_if, if◌then◌else◌, ◌==◌,
}
use oh_my_document.Prelude.Maps.{contains_key}
use oh_my_document.Records.Json.{Payload}
use oh_my_document.Records.Crates.{Crates}
use oh_my_document.Records.Commit.{
  CommitKind, kind_name, audit_init, audit_patch, note_init, note_patch,
}
use oh_my_document.Records.Store.{Store}
use oh_my_document.Relations.Node.{is_journal_key}
use oh_my_document.Records.Pipeline.{
  Env, Gate, Publication, PipelineError, commit, checked, tip_of, advance, published_node_key,
  structural, seal,
}

unfoldable pub is_journal_kind : CommitKind → Bool
is_journal_kind audit_init = true
is_journal_kind audit_patch = true
is_journal_kind note_init = true
is_journal_kind note_patch = true
is_journal_kind _ = false

-- `first`.
unfoldable pub starts_journal : CommitKind → Bool
starts_journal audit_init = true
starts_journal note_init = true
starts_journal _ = false

unfoldable pub sentinel_ok : CommitKind → Text → Bool
sentinel_ok audit_init locator = locator == codes "audit:pending"
sentinel_ok note_init locator = locator == codes "note:pending"
sentinel_ok _ locator = is_journal_key locator

module _ ⦃crates : Crates⦄ where
  unfoldable pub commit_journal :
      Env
      → Gate
      → Store
      → (locator : Text) → CommitKind
      → Payload
      → Result PipelineError Publication
  commit_journal env gate s locator kind payload = do
    refuse_if (not (is_journal_kind kind))
        (commit (codes "commit_journal only accepts journal kinds, got " ++ kind_name kind))
    refuse_if (not (sentinel_ok kind locator)) (
        commit (
          codes "journal locator "
          ++ (locator ++ (codes " does not match kind " ++ kind_name kind))))
    checked gate
    let is_first = not (contains_key locator s.state.tips)
    refuse_if (is_first && not (starts_journal kind))
        (commit (codes "journal node does not exist: " ++ locator))
    let c =
        structural env 0 kind (if starts_journal kind then [] else tip_of s.state locator) payload
    commit_id ← seal env c is_first []
    ok (record {
      record_ = c;
      commit_id = commit_id;
      version = none;
      content = none;
      new_state = advance (published_node_key locator is_first commit_id) commit_id s.state;
      answer = commit_id;
    })
