-- ===== src/Relations/Identity/Resolve.antt =====
-- How the walks along ancestry agree with each other.
use oh_my_document.Prelude.{
  ℕ, zero, suc, List, [], ◌∷◌, Text, text_eq, text_beq_iff, some, Result, ok, err, contains,
  split_once, codes, is_some, nat_eq, is_empty, is_empty_iff, Bool-cases, Result-cases, List-cases,
  inl, inr, ap, sym, ◌∙◌, ◌≡◌, ◌≢◌, refl, arith,
}
use oh_my_document.Records.Commit.{Commit}
use oh_my_document.Records.Crates.{Crates}
use oh_my_document.Records.Store.{Store, read_commit}
use oh_my_document.Relations.Identity.{Kind, file, range, audit, note, peer, RefError}
use oh_my_document.Relations.Node.{file_key, range_key, audit_key, note_key}
use oh_my_document.Relations.Identity.Ancestry.{
  resolve_commit_id, turns, read_or_missing, chain_root_from, chain_root, chain_from, describe,
  AuthoritativeObject, authoritative_object, payload_text, kind_of_root, kind_for_root, key_for,
  commit_to_node, resolve_version_on_chain,
}

module _ ⦃crates : Crates⦄ where
  chain_from-nil :
      (s : Store) (tip : Text) (fuel : ℕ) (visited : List Text) (chain : List (Text × Commit))
      → chain_from s tip fuel visited [] chain ≡ ok chain
  unfolding chain_from
  chain_from-nil s tip zero visited chain = refl
  chain_from-nil s tip (suc fuel) visited chain = refl

  chain_from-root :
      (s : Store) (tip : Text) (fuel : ℕ) (visited : List Text) (current root_id : Text)
      (root : Commit) (chain rest : List (Text × Commit))
      → current ≢ []
      → chain_from s tip fuel visited current chain ≡ ok ((root_id, root) ∷ rest)
      → chain_root_from s tip fuel visited current ≡ ok root_id
  unfolding chain_from chain_root_from read_or_missing
  chain_from-root s tip fuel visited [] root_id root chain rest n h = absurd (n refl)
  chain_from-root s tip zero visited (x ∷ current) root_id root chain rest n h = ground arith
  chain_from-root s tip (suc fuel) visited (x ∷ current) root_id root chain rest n h =
      elim (Bool-cases (contains (x ∷ current) visited)) [
        | inl old ↦ absurd (ground (arith, rw old at h))
        | inr new ↦ elim (Result-cases (read_commit s (x ∷ current))) [
          | inr (e, missing) ↦ absurd (ground (arith, rw (new, missing) at h))
          | inl (c, found) ↦
              let h' : chain_from s tip fuel ((x ∷ current) ∷ visited) c.previous_id
                    ((x ∷ current, c) ∷ chain)
                  ≡ ok ((root_id, root) ∷ rest) =
                rw (new, found) at h in
              elim (Bool-cases (is_empty c.previous_id)) [
                | inl last ↦
                    let none_left : c.previous_id ≡ [] = (is_empty_iff c.previous_id).0 last in
                    rw (new, found, last)
                      (ground (
                        arith,
                        sym (
                            chain_from-nil s tip fuel ((x ∷ current) ∷ visited)
                              ((x ∷ current, c) ∷ chain)),
                        rw none_left at h',
                      ))
                | inr more ↦
                    rw (new, found, more)
                      (chain_from-root s tip fuel ((x ∷ current) ∷ visited) c.previous_id root_id
                        root ((x ∷ current, c) ∷ chain) rest
                        (λ e. ground (arith, more, (is_empty_iff c.previous_id).1 e)) h')
              ]
        ]
      ]

  describe-ok :
      (tip : Text) (chain : List (Text × Commit)) (o : AuthoritativeObject)
      → describe tip chain ≡ ok o
      → (root : Commit) × (rest : List (Text × Commit)) × (chain ≡ (o.root_commit_id, root) ∷ rest)
        × (kind_of_root o.root_commit_id root ≡ ok o.kind)
  unfolding describe
  describe-ok tip [] o h = ground arith
  describe-ok tip ((root_id, root) ∷ chain) o h = elim (Result-cases (kind_of_root root_id root)) [
    | inr (e, bad) ↦ absurd (ground (arith, rw bad at h))
    | inl (kind, good) ↦
        let at : root_id ≡ o.root_commit_id =
          ap
            (λ (r : Result RefError AuthoritativeObject). elim r [
              | ok x ↦ x.root_commit_id
              | err _ ↦ root_id
            ])
            (rw good at h) in
        let same : kind ≡ o.kind =
          ap (λ (r : Result RefError AuthoritativeObject). elim r [ ok x ↦ x.kind | err _ ↦ kind ])
            (rw good at h) in
        (
          root,
          chain,
          ap (λ i. (i, root) ∷ chain) at,
          ap (λ i. kind_of_root i root) (sym at) ∙ good ∙ ap ok same,
        )
  ]

  -- An object that is derived from the ancestry of a tip has the root that `chain_root` finds.
  pub authoritative_object-chain_root :
      (s : Store) (tip : Text) (o : AuthoritativeObject)
      → authoritative_object s tip ≡ ok o
      → chain_root s tip ≡ ok o.root_commit_id
  unfolding authoritative_object chain_root
  authoritative_object-chain_root s tip o h =
      elim (Result-cases (chain_from s tip (turns s) [] tip [])) [
        | inr (e, stuck) ↦ absurd (ground (arith, rw stuck at h))
        | inl (chain, walked) ↦
            let (root, rest, e, _) = describe-ok tip chain o (rw walked at h) in
            elim (List-cases tip) [
              | inl nil ↦
                  absurd
                    (ground (arith, sym (chain_from-nil s [] (turns s) [] []), rw nil at walked, e))
              | inr (x, xs, cons) ↦
                  chain_from-root s tip (turns s) [] tip o.root_commit_id root [] rest
                    (λ z. absurd (ground (arith, sym cons ∙ z))) (walked ∙ ap ok e)
            ]
      ]

  no_peer_root : (id : Text) (c : Commit) → kind_of_root id c ≢ ok peer
  unfolding kind_of_root
  no_peer_root id c h = elim (Bool-cases (is_some (payload_text (codes "mount") c))) [
    | inl mounted ↦ ground (arith, rw mounted at h)
    | inr free ↦ ground (arith, rw free at h)
  ]

  object_no_peer :
      (s : Store) (tip : Text) (o : AuthoritativeObject)
      → authoritative_object s tip ≡ ok o
      → o.kind ≢ peer
  unfolding authoritative_object
  object_no_peer s tip o h k = elim (Result-cases (chain_from s tip (turns s) [] tip [])) [
    | inr (e, stuck) ↦ absurd (ground (arith, rw stuck at h))
    | inl (chain, walked) ↦
        let (root, _, _, derived) = describe-ok tip chain o (rw walked at h) in
        no_peer_root o.root_commit_id root (derived ∙ ap ok k)
  ]

  key_for-split :
      (k : Kind) (root : Text)
      → k ≢ peer
      → (name : Text) × (split_once b':' (key_for k root) ≡ some (name, root))
  unfolding key_for split_once file_key range_key audit_key note_key
  key_for-split file root n = (codes "file", refl)
  key_for-split range root n = (codes "range", refl)
  key_for-split audit root n = (codes "audit", refl)
  key_for-split note root n = (codes "note", refl)
  key_for-split peer root n = absurd (n refl)

  -- The node that a commit is found on has that commit on its chain: the version resolves on
  -- the key, to the same commit.
  pub commit_to_node-resolve_version_on_chain :
      (s : Store) (value node_key root : Text)
      → commit_to_node s value ≡ ok (node_key, root)
      → (selected : Text) × (resolve_commit_id s value ≡ ok selected)
        × (resolve_version_on_chain s node_key value ≡ ok selected)
  unfolding commit_to_node resolve_version_on_chain kind_for_root
  commit_to_node-resolve_version_on_chain s value node_key root h =
      elim (Result-cases (resolve_commit_id s value)) [
        | inr (e, bad) ↦ absurd (ground (arith, rw bad at h))
        | inl (selected, found) ↦ elim (Result-cases (chain_root s selected)) [
          | inr (e, bad) ↦ absurd (ground (arith, rw (found, bad) at h))
          | inl (r, rooted) ↦ elim (Result-cases (authoritative_object s r)) [
            | inr (e, bad) ↦ absurd (ground (arith, rw (found, rooted, bad) at h))
            | inl (o, object) ↦
                let (name, split) = key_for-split o.kind r (object_no_peer s r o object) in
                let same : key_for o.kind r ≡ node_key =
                  ap
                    (λ (x : Result RefError (Text × Text)). elim x [
                      | ok p ↦ p.0
                      | err _ ↦ node_key
                    ])
                    (rw (found, rooted, object) at h) in
                (
                  selected,
                  found,
                  rw (found, rooted, sym same, split) (ground (arith, text_beq_iff r r)),
                )
          ]
        ]
      ]
