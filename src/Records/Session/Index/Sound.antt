-- ===== src/Records/Session/Index/Sound.antt =====
-- What the indexes of a store are that passes the checks.
use oh_my_document.Prelude.{
  true, List, [], ◌∷◌, All, starts_with, Text, text_eq, text_beq, text_beq_iff, Option, none, some,
  codes, ok, split_once, ◌≡◌, ◌∙◌, sym, ap, arith, Result-cases, Option-cases, inl, inr,
}
use oh_my_document.Prelude.Equality.{option_beq_iff}
use oh_my_document.Prelude.Maps.{Map, lookup, contains_key, keys}
use oh_my_document.Records.Crates.{Crates}
use oh_my_document.Records.Store.{State, Store}
use oh_my_document.Relations.Identity.{Kind, kind_name, file, range, peer, audit, note}
use oh_my_document.Relations.Identity.Ancestry.{AuthoritativeObject, authoritative_object}
use oh_my_document.Relations.Node.{parent_of}
use oh_my_document.Records.Session.{Session, World}
use oh_my_document.Records.Session.Index.{
  Seen, check_journal, check_range, check_locations, check_children, check_mounts, check_file,
  check_kind, check_tip, check_tips, check_selected, project_ranges, validate_identity_index,
}

-- A live object, of the kind that its key begins with.
abbrev IsLive : Text → State → Text → Type 0
IsLive prefix state node = (contains_key node state.tips ≡ true) × (starts_with prefix node ≡ true)

check_locations-ok :
    (state : State) (nodes : List Text)
    → check_locations state nodes ≡ ok tt
    → All (IsLive (codes "file:") state) nodes
unfolding check_locations
check_locations-ok state [] h = tt
check_locations-ok state (node ∷ nodes) h =
    ((ground (arith, h), ground (arith, h)), check_locations-ok state nodes (ground (arith, h)))

check_children-ok :
    (state : State) (children : List Text)
    → check_children state children ≡ ok tt
    → All (IsLive (codes "range:") state) children
unfolding check_children
check_children-ok state [] h = tt
check_children-ok state (node ∷ nodes) h =
    ((ground (arith, h), ground (arith, h)), check_children-ok state nodes (ground (arith, h)))

-- A file with its ranges.
abbrev IsMount : State → Text × List Text → Type 0
IsMount state (parent, children) =
    IsLive (codes "file:") state parent × All (IsLive (codes "range:") state) children

check_mounts-ok :
    (state : State) (mounts : Map (List Text))
    → check_mounts state mounts ≡ ok tt
    → All (IsMount state) mounts
unfolding check_mounts
check_mounts-ok state [] h = tt
check_mounts-ok state ((parent, children) ∷ mounts) h =
    elim (Result-cases (check_children state children)) [
      | inr (e, wrong) ↦ absurd (ground (arith, h, wrong))
      | inl (tt, right) ↦ (
        ((ground (arith, h), ground (arith, h)), check_children-ok state children right),
        check_mounts-ok state mounts (ground (arith, h, right)),
      )
    ]

module _ ⦃crates : Crates⦄ where
  -- What the indexes say of an object is what its chain says: a file has the location of its chain,
  -- a range hangs on the parent of its root, an audit or a note has neither.
  abbrev Agrees : State → Text → AuthoritativeObject → Kind → Type 0
  Agrees state node a file = lookup node state.locations ≡ a.location
  Agrees state node a range =
      (lookup node state.locations ≡ none) × (parent_of state node ≡ a.parent)
  Agrees state node a peer = Unit {0}
  Agrees state node a audit = lookup node state.locations ≡ none
  Agrees state node a note = lookup node state.locations ≡ none

  abbrev IsIndexed : Store → Text × Text → Type 0
  IsIndexed s (node, tip) =
      (root : Text) × (a : AuthoritativeObject) × (authoritative_object s tip ≡ ok a)
      × (split_once b':' node ≡ some (kind_name a.kind, root))
      × (a.root_commit_id ≡ root)
      × Agrees s.state node a a.kind

  check_file-ok :
      (s : Store) (projected : List Text) (seen : Seen) (node root : Text) (location : Option Text)
      (out : Seen)
      → check_file s projected seen node root location ≡ ok out
      → lookup node s.state.locations ≡ location
  unfolding check_file contains_key
  check_file-ok s projected seen node root none out h = ground (arith, h)
  check_file-ok s projected seen node root (some path) out h =
      ground (arith, h, option_beq_iff (lookup node s.state.locations) (some path))

  check_kind-ok :
      (s : Store) (projected : List Text) (seen : Seen) (node root : Text) (a : AuthoritativeObject)
      (out : Seen) (kind : Kind)
      → check_kind s projected seen node (kind_name kind) root a ≡ ok out
      → Agrees s.state node a kind
  unfolding check_kind check_journal check_range contains_key kind_name check_file text_beq
  check_kind-ok s projected seen node root a out file h =
      check_file-ok s projected seen node root a.location out h
  check_kind-ok s projected seen node root a out range h =
      (ground (arith, h), ground (arith, h, option_beq_iff (parent_of s.state node) a.parent))
  check_kind-ok s projected seen node root a out peer h = tt
  check_kind-ok s projected seen node root a out audit h = ground (arith, h)
  check_kind-ok s projected seen node root a out note h = ground (arith, h)

  check_tip-ok :
      (s : Store) (projected : List Text) (seen : Seen) (node tip : Text) (out : Seen)
      → check_tip s projected seen node tip ≡ ok out
      → IsIndexed s (node, tip)
  unfolding check_tip
  check_tip-ok s projected seen node tip out h = elim (Option-cases (split_once b':' node)) [
    | inl unsplit ↦ absurd (ground (arith, h, unsplit))
    | inr ((kind, root), split) ↦ elim (Result-cases (authoritative_object s tip)) [
      | inr (e, wrong) ↦ absurd (ground (arith, h, split, wrong))
      | inl (a, found) ↦
          let root_is : a.root_commit_id ≡ root =
            ground (arith, h, split, found, text_beq_iff a.root_commit_id root) in
          let kind_is : kind ≡ kind_name a.kind =
            ground (arith, h, split, found, text_beq_iff kind (kind_name a.kind)) in
          let rest : check_kind s projected seen node kind root a ≡ ok out =
            ground (arith, h, split, found) in
          (
            root,
            a,
            found,
            split ∙ ap (λ (k : Text). some (k, root)) kind_is,
            root_is,
            check_kind-ok s projected seen node root a out a.kind
                (ap (λ (k : Text). check_kind s projected seen node k root a) (sym kind_is) ∙ rest),
          )
    ]
  ]

  check_tips-ok :
      (s : Store) (projected : List Text) (tips : Map Text) (seen out : Seen)
      → check_tips s projected tips seen ≡ ok out
      → All (IsIndexed s) tips
  unfolding check_tips
  check_tips-ok s projected [] seen out h = tt
  check_tips-ok s projected ((node, tip) ∷ tips) seen out h =
      elim (Result-cases (check_tip s projected seen node tip)) [
        | inr (e, wrong) ↦ absurd (ground (arith, h, wrong))
        | inl (more, right) ↦ (
          check_tip-ok s projected seen node tip more right,
          check_tips-ok s projected tips more out (ground (arith, h, right)),
        )
      ]

  -- The indexes of a store agree with the chains of its records.
  pub record IsSound (s : Store) : Type 0 where
    pub tips : All (IsIndexed s) s.state.tips
    pub located : All (IsLive (codes "file:") s.state) (keys s.state.locations)
    pub mounted : All (IsMount s.state) s.state.mounts

  -- A store whose indexes pass the checks has, for each tip, a chain with the root and the kind that
  -- the key of the tip names; a file has the location that its chain ends with, a range hangs on the
  -- parent that its root names, and nothing but live files has a location or ranges, and these are
  -- live.
  pub validate_identity_index-IsSound :
      (world : World) (s : Session) → validate_identity_index world s ≡ ok tt → IsSound s.stored
  unfolding validate_identity_index
  validate_identity_index-IsSound world s h =
      let state = s.stored.state in
      elim (Result-cases (check_selected world s (keys state.registrations))) [
        | inr (e, e1) ↦ absurd (ground (arith, h, e1))
        | inl (tt, e1) ↦ elim (Result-cases (project_ranges state.mounts [])) [
          | inr (e, e2) ↦ absurd (ground (arith, h, e1, e2))
          | inl (projected, e2) ↦
              elim (Result-cases (check_tips s.stored projected state.tips [])) [
                | inr (e, e3) ↦ absurd (ground (arith, h, e1, e2, e3))
                | inl (seen, e3) ↦
                    elim (Result-cases (check_locations state (keys state.locations))) [
                      | inr (e, e4) ↦ absurd (ground (arith, h, e1, e2, e3, e4))
                      | inl (tt, e4) ↦ record {
                        tips = check_tips-ok s.stored projected state.tips [] seen e3;
                        located = check_locations-ok state (keys state.locations) e4;
                        mounted =
                            check_mounts-ok state state.mounts (ground (arith, h, e1, e2, e3, e4));
                      }
                    ]
              ]
        ]
      ]
