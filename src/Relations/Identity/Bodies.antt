-- ===== src/Relations/Identity/Bodies.antt =====
-- The effective body of a range is the newest one on its chain.
use oh_my_document.Prelude.{
  ℕ, zero, suc, List, [], ◌∷◌, Text, text_eq, text_beq_iff, Option, none, some, Result, ok, err,
  contains, ◌==◌, Bool-cases, Option-cases, Result-cases, inl, inr, ap, sym, ◌∙◌, ◌≡◌, ◌≢◌, refl,
  arith,
}
use mathlib.Core.Option
use oh_my_document.Prelude.Maps.{lookup}
use oh_my_document.Records.Commit.{Commit}
use oh_my_document.Records.Crates.{Crates}
use oh_my_document.Records.Store.{Store, read_commit}
use oh_my_document.Relations.Range.{Range}
use oh_my_document.Relations.Identity.Ancestry.{turns, chain_root}
use oh_my_document.Relations.Identity.Effective.{
  Body, body_of, body_or, body_from, EffectiveRangeState, EffectiveRangeError,
  effective_range_state,
}
use oh_my_document.Relations.Node.{is_range_key, range_key, parent_of, path_of}

module _ ⦃crates : Crates⦄ where
  -- The newest commit with a body on the chain back from an id, if there is one.
  pub data Newest (s : Store) : Text → Option Body → Type 0 where
    nothing : Newest s [] none
    newest :
        (id : Text) (c : Commit) (r : Range)
        → id ≢ []
        → read_commit s id ≡ ok c
        → body_of c ≡ some r
        → Newest s id (some (id, c.content_ref, r))
    older :
        (id : Text) (c : Commit) (b : Option Body)
        → id ≢ []
        → read_commit s id ≡ ok c
        → body_of c ≡ none
        → Newest s c.previous_id b
        → Newest s id b

  body_from-nil :
      (s : Store) (fuel : ℕ) (visited : List Text) → body_from s fuel visited [] ≡ ok none
  unfolding body_from
  body_from-nil s zero visited = refl
  body_from-nil s (suc fuel) visited = refl

  body_from-Newest :
      (s : Store) (fuel : ℕ) (visited : List Text) (current : Text) (b : Option Body)
      → body_from s fuel visited current ≡ ok b
      → Newest s current b
  unfolding body_from
  body_from-Newest s fuel visited [] b h =
      let same : none ≡ b = ground (arith, sym (body_from-nil s fuel visited) ∙ h) in
      rw (sym same) nothing
  body_from-Newest s zero visited (x ∷ current) b h = absurd (ground (arith, h))
  body_from-Newest s (suc fuel) visited (x ∷ current) b h =
      elim (Bool-cases (contains (x ∷ current) visited)) [
        | inl old ↦ absurd (ground (arith, rw old at h))
        | inr new ↦ elim (Result-cases (read_commit s (x ∷ current))) [
          | inr (e, missing) ↦ absurd (ground (arith, rw (new, missing) at h))
          | inl (c, found) ↦
              let h' : body_or (x ∷ current) c (body_of c)
                    (body_from s fuel ((x ∷ current) ∷ visited) c.previous_id)
                  ≡ ok b =
                rw (new, found) at h in
              elim (Option-cases (body_of c)) [
                | inr (r, body) ↦
                    let same : some (x ∷ current, c.content_ref, r) ≡ b =
                      unfold body_or in ground (arith, rw body at h') in
                    rw (sym same) (newest (x ∷ current) c r (λ e. ground (arith, e)) found body)
                | inl marker ↦
                    older (x ∷ current) c b (λ e. ground (arith, e)) found marker
                      (body_from-Newest s fuel ((x ∷ current) ∷ visited) c.previous_id b
                        (unfold body_or in rw marker at h'))
              ]
        ]
      ]

  abbrev state_of : Text → Text → Text → Text → Text → Option Body → EffectiveRangeState
  state_of node_key top tip parent path b = record {
    node_key = node_key;
    root_commit_id = top;
    tip_id = tip;
    effective_range_commit_id = Option.map (λ (x : Body). x.0) b;
    source_version_id = Option.map (λ (x : Body). x.1) b;
    range_ = Option.map (λ (x : Body). x.2) b;
    current_parent_key = parent;
    current_path = path;
  }

  -- The effective state of a range: its key is that of the root of its tip's chain, it is mounted
  -- on a node with a path, and the commit, the source version and the range of its body are those
  -- of the newest commit with a body on the chain, or missing where there is none.
  pub effective_range_state-Newest :
      (s : Store) (node_key : Text) (e : EffectiveRangeState)
      → effective_range_state s node_key ≡ ok e
      → (lookup node_key s.state.tips ≡ some e.tip_id)
        × (chain_root s e.tip_id ≡ ok e.root_commit_id)
        × (range_key e.root_commit_id ≡ node_key)
        × (parent_of s.state node_key ≡ some e.current_parent_key)
        × (path_of s.state e.current_parent_key ≡ some e.current_path)
        × ((b : Option Body) × Newest s e.tip_id b
            × (e.effective_range_commit_id ≡ Option.map (λ (x : Body). x.0) b)
            × (e.source_version_id ≡ Option.map (λ (x : Body). x.1) b)
            × (e.range_ ≡ Option.map (λ (x : Body). x.2) b))
  unfolding effective_range_state
  effective_range_state-Newest s node_key e h = elim (Bool-cases (is_range_key node_key)) [
    | inr other ↦ absurd (ground (arith, rw other at h))
    | inl own ↦ elim (Option-cases (lookup node_key s.state.tips)) [
      | inl gone ↦ absurd (ground (arith, rw (own, gone) at h))
      | inr (tip, live) ↦ elim (Result-cases (chain_root s tip)) [
        | inr (x, bad) ↦ absurd (ground (arith, rw (own, live, bad) at h))
        | inl (top, rooted) ↦ elim (Bool-cases (range_key top == node_key)) [
          | inr other ↦ absurd (ground (arith, rw (own, live, rooted, other) at h))
          | inl keyed ↦ elim (Option-cases (parent_of s.state node_key)) [
            | inl loose ↦ absurd (ground (arith, rw (own, live, rooted, keyed, loose) at h))
            | inr (parent, mounted) ↦ elim (Option-cases (path_of s.state parent)) [
              | inl nowhere ↦
                  absurd (ground (arith, rw (own, live, rooted, keyed, mounted, nowhere) at h))
              | inr (path, located) ↦ elim (Result-cases (body_from s (turns s) [] tip)) [
                | inr (x, bad) ↦
                    absurd
                      (ground (arith, rw (own, live, rooted, keyed, mounted, located, bad) at h))
                | inl (b, walked) ↦
                    let same : state_of node_key top tip parent path b ≡ e =
                      ap
                        (λ (r : Result EffectiveRangeError EffectiveRangeState). elim r [
                          | ok x ↦ x
                          | err _ ↦ state_of node_key top tip parent path b
                        ])
                        (rw (own, live, rooted, keyed, mounted, located, walked) at h) in
                    rw (sym same) (
                      live,
                      rooted,
                      (text_beq_iff (range_key top) node_key).0 keyed,
                      mounted,
                      located,
                      (b, body_from-Newest s (turns s) [] tip b walked, refl, refl, refl),
                    )
              ]
            ]
          ]
        ]
      ]
    ]
  ]
