-- ===== src/Relations/LinkHealth/Liveness.antt =====
-- A pinned version is alive while it stands on the chain of the endpoint's tip.
use oh_my_document.Prelude.{
  ℕ, zero, suc, ◌<◌, true, false, [], Text, text_eq, text_beq_iff, some, ok, codes, is_empty,
  is_empty_iff, starts_with, ◌==◌, Bool-cases, Option-cases, Result-cases, inl, inr, ◌≡◌, ◌≢◌, ◌↔◌,
  refl, sym, ◌∙◌, arith,
}
use oh_my_document.Prelude.Maps.{lookup}
use oh_my_document.Records.Commit.{Commit}
use oh_my_document.Records.Crates.{Crates}
use oh_my_document.Records.Store.{Store, read_commit}
use oh_my_document.Relations.LinkHealth.{alive_from, endpoint_alive, guard_turns}

module _ ⦃crates : Crates⦄ where
  -- `pinned` is `n` steps behind an id on its chain of readable commits.
  pub data OnChain (s : Store) (pinned : Text) : Text → ℕ → Type 0 where
    here : pinned ≢ [] → OnChain s pinned pinned 0
    behind :
        (current : Text) (c : Commit) (n : ℕ)
        → current ≢ []
        → read_commit s current ≡ ok c
        → OnChain s pinned c.previous_id n
        → OnChain s pinned current (suc n)

  alive_from-true :
      (s : Store) (pinned : Text) (turns : ℕ) (current : Text)
      → alive_from s pinned turns current ≡ true
      → (n : ℕ) × (n < turns) × OnChain s pinned current n
  unfolding alive_from
  alive_from-true s pinned zero current h = absurd (ground (arith, h))
  alive_from-true s pinned (suc turns) current h = elim (Bool-cases (is_empty current)) [
    | inl gone ↦ absurd (ground (arith, rw gone at h))
    | inr there ↦
        let started : current ≢ [] = λ e. ground (arith, there, (is_empty_iff current).1 e) in
        elim (Bool-cases (current == pinned)) [
          | inl met ↦
              let at : pinned ≡ current = sym ((text_beq_iff current pinned).0 met) in
              (0, omega arith, rw (sym at) (here (λ e. started (sym at ∙ e))))
          | inr on ↦ elim (Result-cases (read_commit s current)) [
            | inr (e, missing) ↦ absurd (ground (arith, rw (there, on, missing) at h))
            | inl (c, found) ↦
                let (n, l, chain) =
                  alive_from-true s pinned turns c.previous_id (rw (there, on, found) at h) in
                (suc n, omega (arith, l), behind current c n started found chain)
          ]
        ]
  ]

  true-alive_from :
      (s : Store) (pinned : Text) (turns : ℕ) {current : Text} {n : ℕ}
      → OnChain s pinned current n
      → n < turns
      → alive_from s pinned turns current ≡ true
  unfolding alive_from
  true-alive_from s pinned zero chain l = absurd (omega arith)
  true-alive_from s pinned (suc turns) (here started) l =
      ground (arith, is_empty_iff pinned, text_beq_iff pinned pinned)
  true-alive_from s pinned (suc turns) (behind current c n started found chain) l =
      let there : is_empty current ≡ false = ground (arith, is_empty_iff current) in
      elim (Bool-cases (current == pinned)) [
        | inl met ↦ rw (there, met) refl
        | inr on ↦ rw (there, on, found) (true-alive_from s pinned turns chain (omega arith))
      ]

  -- An endpoint of the store that is no peer is alive just when it has a tip and the pinned id
  -- is one of the first 100000 on the tip's chain of readable commits.
  pub endpoint_alive_iff :
      (s : Store) (endpoint pinned : Text)
      → starts_with (codes "peer:") endpoint ≡ false
      → (endpoint_alive s endpoint pinned ≡ true) ↔ (
          (tip : Text) × (n : ℕ) × (lookup endpoint s.state.tips ≡ some tip)
          × (n < guard_turns)
          × OnChain s pinned tip n)
  unfolding endpoint_alive
  endpoint_alive_iff s endpoint pinned own = elim (Option-cases (lookup endpoint s.state.tips)) [
    | inl absent ↦ (
      λ h. absurd (ground (arith, rw (endpoint_alive, own, absent) at h)),
      λ (tip, n, e, l, chain). absurd (ground (arith, sym absent ∙ e)),
    )
    | inr (top, found) ↦ (
      λ h.
          let (n, l, chain) =
            alive_from-true s pinned guard_turns top (rw (endpoint_alive, own, found) at h) in
          (top, n, found, l, chain),
      λ (tip, n, e, l, chain).
          rw (endpoint_alive, own, e) (true-alive_from s pinned guard_turns chain l),
    )
  ]
