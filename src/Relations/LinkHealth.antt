-- ===== src/Relations/LinkHealth.antt =====
-- src/relations/linkhealth.rs: the health of one link, judged stratum by stratum.
mod Strata
mod Liveness
mod Tests
use oh_my_document.Prelude.{
  is_hexdigit, ℕ, zero, suc, Bool, true, false, not, ◌&&◌, ◌||◌, List, [], ◌∷◌, ◌++◌, Text, text_eq,
  Option, none, some, ok, err, codes, is_empty, all, any, if◌then◌else◌, ◌==◌, ltb, leb, split_once,
  strip_prefix, starts_with, is_some,
}
use oh_my_document.Prelude.Maps.{Map, lookup}
use oh_my_document.Records.Crates.{Crates}
use oh_my_document.Records.Store.{Link, Store, State, read_commit}
use oh_my_document.Relations.Dirty.{DirtyState}
use oh_my_document.Relations.Node.Position.{print_u64}

pub data LinkHealth : Type 0 where
  broken withdrawn obliged stale healthy : LinkHealth

pub record HealthDetail : Type 0 where
  pub health : LinkHealth
  pub failing_stratum : Option ℕ
  pub reason : Option Text

unfoldable pub valid_hex : Text → Bool
unfolding is_hexdigit
valid_hex s = not (is_empty s) && all is_hexdigit s

unfoldable pub plausible_remote : Option (Text × Text) → Bool
plausible_remote none = false
plausible_remote (some (kind, root)) =
    (kind == codes "file" || kind == codes "range") && valid_hex root

unfoldable pub plausible_local : Option (Text × Text) → Bool
plausible_local none = false
plausible_local (some (kind, root)) =
    if kind == codes "file" || kind == codes "range"
    then valid_hex root
    else if kind == codes "audit" || kind == codes "note"
    then valid_hex root
    else false

unfoldable pub plausible_endpoint : Text → Bool
unfolding plausible_remote plausible_local
plausible_endpoint key = elim (strip_prefix (codes "peer:") key) [
  | some rest ↦ elim (split_once b':' rest) [
    | none ↦ false
    | some (_, remote) ↦ plausible_remote (split_once b':' remote)
  ]
  | none ↦ plausible_local (split_once b':' key)
]

unfoldable pub judge_link : Link → (Text → Bool) → (Text → Bool) → ℕ → HealthDetail
judge_link link endpoint_alive endpoint_dirty pending_count =
    if not (plausible_endpoint link.source) || not (plausible_endpoint link.target)
    then record {
      health = broken;
      failing_stratum = some 0;
      reason =
          some (codes "endpoint key malformed: " ++ (link.source ++ (codes " → " ++ link.target)));
    }
    else if not (endpoint_alive link.source)
    then record {
      health = withdrawn;
      failing_stratum = some 1;
      reason = some (codes "source endpoint withdrawn: " ++ link.source);
    }
    else if not (endpoint_alive link.target)
    then record {
      health = withdrawn;
      failing_stratum = some 1;
      reason = some (codes "target endpoint withdrawn: " ++ link.target);
    }
    else if ltb 0 pending_count
    then record {
      health = obliged;
      failing_stratum = some 2;
      reason = some (print_u64 pending_count ++ codes " pending adapt obligation(s)");
    }
    else if endpoint_dirty link.source || endpoint_dirty link.target
    then record {
      health = stale;
      failing_stratum = some 2;
      reason = some (codes "endpoint carries persisted dirty ranges");
    }
    else record { health = healthy; failing_stratum = none; reason = none }

-- The walk stops after so many commits.
abbrev pub guard_turns : ℕ
guard_turns = 100000

module _ ⦃crates : Crates⦄ where
  -- The `while` loop of `endpoint_alive`.
  unfoldable pub alive_from : Store → (pinned : Text) → ℕ → (current : Text) → Bool
  alive_from s pinned zero current = false
  alive_from s pinned (suc turns) current =
      if is_empty current
      then false
      else if current == pinned
      then true
      else elim (read_commit s current) [
        | err _ ↦ false
        | ok c ↦ alive_from s pinned turns c.previous_id
      ]

  unfoldable pub endpoint_alive : Store → (endpoint pinned : Text) → Bool
  endpoint_alive s endpoint pinned =
      if starts_with (codes "peer:") endpoint then true else elim (lookup endpoint s.state.tips) [
        | none ↦ false
        | some current ↦ alive_from s pinned guard_turns current
      ]

-- `is_some_and(|ds| !ds.dirty.is_empty())`.
unfoldable pub carries_dirty : Option DirtyState → Bool
carries_dirty none = false
carries_dirty (some d) = not (is_empty d.dirty)

unfoldable pub endpoint_dirty : Store → Text → Bool
unfolding carries_dirty
endpoint_dirty s endpoint =
    carries_dirty (lookup endpoint s.state.dirty) || elim (lookup endpoint s.state.mounts) [
      | none ↦ false
      | some children ↦ any (λ child. carries_dirty (lookup child s.state.dirty)) children
    ]
