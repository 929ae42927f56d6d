-- ===== src/Records/Reset.antt =====
-- src/records/pipeline.rs: where a reset lands, which resets are refused, and what is withdrawn.
mod Dyck
mod Blocks
pub mod Landing
mod Children
mod Applied
mod Tests
use oh_my_document.Prelude.{
  ℕ, zero, suc, ◌-◌, Bool, true, false, not, ◌&&◌, ◌||◌, List, [], ◌∷◌, ◌++◌, Text, text_eq, Option,
  none, some, Result, ok, err, ◌>>=◌, ok_or, codes, is_empty, if◌then◌else◌, ◌==◌, contains, retain,
  unwrap_or,
}
use oh_my_document.Prelude.Maps.{Map, TextSet, lookup, insert, remove, contains_key}
use oh_my_document.Records.Commit.{CommitKind, atomic_begin, atomic_end}
use oh_my_document.Records.Store.{State, Link}

pub record ResetTargetRecord : Type 0 where
  pub kind : CommitKind
  pub previous_id : Text
  pub parent_block : Option Text

pub record ResetBlockMembership : Type 0 where
  pub scope : Text
  pub block : Text

pub data ResetError : Type 0 where
  unknown_target : Text → ResetError
  interior : (target scope block : Text) → ResetError
  child_interior : (child target scope block : Text) → ResetError

pub record ResetOutcome : Type 0 where
  pub requested : Text
  pub actual : Text
  pub warning : Text

-- `matches!(kind, AtomicBegin | AtomicEnd)`.
unfoldable pub is_marker : CommitKind → Bool
is_marker atomic_begin = true
is_marker atomic_end = true
is_marker _ = false

-- One marker met on the way back: `none` where the loop returns.
unfoldable pub depth_after : CommitKind → ℕ → Option ℕ
depth_after atomic_end depth = some (suc depth)
depth_after atomic_begin zero = none
depth_after atomic_begin (suc depth) = some depth
depth_after _ depth = some depth

-- The turns that are left when the first record was read: the loop breaks where `guard`, that
-- counts up from 0, is past 100000.
abbrev pub guard_turns : ℕ
guard_turns = 100001

module _ {R : Type 0} (kind : R → CommitKind) (previous_id : R → Text) where
  -- The `while let` loop that both block tests have: the BEGIN that is open around `cur`.
  unfoldable pub open_begin : (Text → Option R) → (turns depth : ℕ) → (cur : Text) → Option Text
  open_begin read zero depth cur = elim (read cur) [
    | none ↦ none
    | some r ↦ elim (depth_after (kind r) depth) [ none ↦ some cur | some _ ↦ none ]
  ]
  open_begin read (suc turns) depth cur = elim (read cur) [
    | none ↦ none
    | some r ↦ elim (depth_after (kind r) depth) [
      | none ↦ some cur
      | some d ↦
          let rest = open_begin read turns d (previous_id r) in
          if is_empty (previous_id r) then none else rest
    ]
  ]

unfoldable pub reset_block_membership :
    (Text → Option ResetTargetRecord) → Text → Result ResetError (Option ResetBlockMembership)
reset_block_membership read target = ok_or (read target) (unknown_target target) >>= λ record_.
    if is_marker record_.kind then ok none else elim record_.parent_block [
      | some block ↦ ok (some (record { scope = codes "parent-file"; block = block }))
      | none ↦ elim (open_begin (λ r. r.kind) (λ r. r.previous_id) read guard_turns 0 target) [
        | some block ↦ ok (some (record { scope = codes "same-chain"; block = block }))
        | none ↦ ok none
      ]
    ]

-- The walk of `commit_is_block_member`, over pairs of a kind and a predecessor.
unfoldable pub commit_is_block_member : (Text → Option (CommitKind × Text)) → Text → Bool
commit_is_block_member read commit =
    elim (open_begin (λ r. r.0) (λ r. r.1) read guard_turns 0 commit) [
      | some _ ↦ true
      | none ↦ false
    ]

-- The loop of `file_reset_children_checked`, with what it has pushed.
unfoldable pub restore_children :
    (Text → Result ResetError (Option ResetBlockMembership))
    → Map Text
    → Map Text
    → Result ResetError (Map Text)
restore_children child_membership [] restored = ok restored
restore_children child_membership ((range_id, tip) ∷ range_tips) restored =
    let rest = restore_children child_membership range_tips (restored ++ (range_id, tip) ∷ []) in
    child_membership tip >>= λ membership. elim membership [
      | some m ↦ err (child_interior range_id tip m.scope m.block)
      | none ↦ rest
    ]

unfoldable pub file_reset_children_checked :
    Map Text
    → (Text → Result ResetError (Option ResetBlockMembership))
    → Result ResetError (Map Text)
file_reset_children_checked range_tips child_membership =
    restore_children child_membership range_tips []

unfoldable pub file_reset_children : Map Text → (Text → Bool) → Result ResetError (Map Text)
file_reset_children range_tips child_is_interior = file_reset_children_checked range_tips λ tip.
    ok (
      if child_is_interior tip
      then some (record { scope = codes "same-chain"; block = codes "unknown" })
      else none)

unfoldable pub landing_warning : Text → Text → Text
landing_warning target previous =
    codes "requested boundary "
    ++ (target
        ++ (codes " lands on predecessor "
            ++ (if is_empty previous then codes "<empty>" else previous)))

unfoldable pub reset : Text → (Text → Option ResetTargetRecord) → Result ResetError ResetOutcome
unfolding landing_warning
reset target read = ok_or (read target) (unknown_target target) >>= λ record_.
    if is_marker record_.kind
    then ok (record {
      requested = target;
      actual = record_.previous_id;
      warning = landing_warning target record_.previous_id;
    })
    else (reset_block_membership read target >>= λ membership. elim membership [
      | some m ↦ err (interior target m.scope m.block)
      | none ↦ ok (record { requested = target; actual = target; warning = [] })
    ])

-- The ids that are walked over from the old tip to the landing, at most 100000.
unfoldable pub removed_from :
    (Text → Option (CommitKind × Text)) → ℕ → (actual cur : Text) → List Text
removed_from read zero actual cur = []
removed_from read (suc turns) actual cur =
    let rest = removed_from read turns actual (elim (read cur) [ some r ↦ r.1 | none ↦ [] ]) in
    if is_empty cur then [] else if cur == actual then [] else cur ∷ rest

-- `retain` on the entries of a map.
unfoldable pub retain_entries {ℓ} : {V : Type ℓ} → (Text → V → Bool) → Map V → Map V
retain_entries p [] = []
retain_entries p ((k, v) ∷ m) =
    let rest = retain_entries p m in if p k v then (k, v) ∷ rest else rest

unfoldable pub map_values {ℓ} : {V : Type ℓ} → (V → V) → Map V → Map V
map_values f [] = []
map_values f ((k, v) ∷ m) = (k, f v) ∷ map_values f m

unfoldable pub withdraw : List Text → State → State
withdraw removed state =
    let links =
      retain_entries (λ id (link : Link). not (contains link.created_by removed)) state.links in
    record state {
      links = links;
      link_pending =
          map_values (retain (λ c. not (contains c removed)))
            (retain_entries (λ id pending. contains_key id links) state.link_pending);
    }

abbrev pub walk_turns : ℕ
walk_turns = 100000

unfoldable pub apply_reset_to_state :
    State → (node_key actual : Text) → (Text → Option (CommitKind × Text)) → State
unfolding withdraw
apply_reset_to_state state node_key actual read =
    let old_tip = unwrap_or (lookup node_key state.tips) [] in
    let tips =
      if is_empty actual then remove node_key state.tips else insert node_key actual state.tips in
    withdraw (removed_from read walk_turns actual old_tip) (record state { tips = tips })
