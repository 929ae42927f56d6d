-- ===== src/Relations/Identity/Named.antt =====
-- src/relations/identity.rs, `resolve_version_on_chain`: which commit a version names.
use oh_my_document.Prelude.{
  true, false, Text, text_eq, text_beq_iff, some, ok, contains, starts_with, split_once,
  Result-cases, Option-cases, inl, inr, ◌⊎◌, ◌≡◌, arith,
}
use oh_my_document.Records.Crates.{Crates}
use oh_my_document.Records.Store.{Store}
use oh_my_document.Relations.Identity.Ancestry.{
  resolve_commit_id, chain_root, resolve_version_on_chain,
}
use oh_my_document.Relations.Identity.Prefixes.{resolve_commit_id_iff}

module _ ⦃crates : Crates⦄ where
  -- The version is the id, or a prefix of this one retained id alone, and the chain of the id starts
  -- at the root in the key.
  pub record Names (s : Store) (node_key version id : Text) : Type 0 where
    pub retained : contains id s.state.retained ≡ true
    pub named :
        (id ≡ version)
        ⊎ ((contains version s.state.retained ≡ false)
            × (starts_with version id ≡ true)
            × ((k : Text)
                → contains k s.state.retained ≡ true
                → starts_with version k ≡ true
                → k ≡ id))
    pub on_chain :
        (kind root : Text) × (split_once b':' node_key ≡ some (kind, root))
        × (chain_root s id ≡ ok root)

  pub resolve_version_on_chain-Names :
      (s : Store) (node_key version id : Text)
      → resolve_version_on_chain s node_key version ≡ ok id
      → Names s node_key version id
  unfolding resolve_version_on_chain
  resolve_version_on_chain-Names s node_key version id h =
      elim (Result-cases (resolve_commit_id s version)) [
        | inr (e, bad) ↦ absurd (ground (arith, h, bad))
        | inl (selected, found) ↦ elim (Result-cases (chain_root s selected)) [
          | inr (e, bad) ↦ absurd (ground (arith, h, found, bad))
          | inl (root, rooted) ↦ elim (Option-cases (split_once b':' node_key)) [
            | inl bad ↦ absurd (ground (arith, h, found, rooted, bad))
            | inr ((kind, expected), split) ↦
                let at : selected ≡ id = ground (arith, h, found, rooted, split) in
                let same : root ≡ expected =
                  ground (arith, h, found, rooted, split, text_beq_iff root expected) in
                let (kept, named) = (resolve_commit_id_iff s version id).0 (rw at at found) in
                record {
                  retained = kept;
                  named = named;
                  on_chain = (kind, expected, split, rw (at, same) at rooted);
                }
          ]
        ]
      ]
