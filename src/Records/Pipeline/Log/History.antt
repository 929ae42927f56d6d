-- ===== src/Records/Pipeline/Log/History.antt =====
-- The histories of the objects of a store, and what a command adds to them.
use oh_my_document.Prelude.{
  Bool, true, false, List, [], ◌∷◌, Text, text_eq, text_beq_iff, none, ok, is_empty, if◌then◌else◌,
  ◌==◌, unwrap_or, Bool-cases, inl, inr, ◌≡◌, ◌≢◌, ◌∙◌, sym, ap, arith,
}
use oh_my_document.Prelude.Maps.{Map, lookup, lookup-insert}
use oh_my_document.Records.Crates.{Crates}
use oh_my_document.Records.Commit.{Commit, validate}
use oh_my_document.Records.Store.{Store, read_commit}
use oh_my_document.Records.Pipeline.{Env, Publication, tip_of}
use oh_my_document.Records.Pipeline.Source.{Reader}
use oh_my_document.Records.Pipeline.Grows.{Grows}
use oh_my_document.Records.Pipeline.Grows.{Grows}
use oh_my_document.Records.Pipeline.Log.{published, Chain, start, more, Writes, Writes-Grows}

module _ ⦃crates : Crates⦄ where
  validate-read :
      (c : Commit) (b : Bool)
      → validate crates.is_rfc3339 crates.hex_decode c b ≡ ok tt
      → validate crates.is_rfc3339 crates.hex_decode c (is_empty c.previous_id) ≡ ok tt
  unfolding validate
  validate-read c b h = ground (arith, h)

  module _ (s : Store) (p : Publication) where
    read_commit-published :
        (id : Text) → id ≢ p.commit_id → read_commit (published s p) id ≡ read_commit s id
    unfolding read_commit published
    read_commit-published id other = ground (
      arith,
      lookup-insert p.commit_id id p.record_ s.commits,
      text_beq_iff p.commit_id id,
      other,
    )

    read_commit-new :
        (b : Bool)
        → validate crates.is_rfc3339 crates.hex_decode p.record_ b ≡ ok tt
        → read_commit (published s p) p.commit_id ≡ ok p.record_
    unfolding read_commit published
    read_commit-new b h = ground (
      arith,
      lookup-insert p.commit_id p.commit_id p.record_ s.commits,
      text_beq_iff p.commit_id p.commit_id,
      validate-read p.record_ b h,
    )

    read-ne-new :
        (id : Text) (c : Commit)
        → lookup p.commit_id s.commits ≡ none
        → read_commit s id ≡ ok c
        → id ≢ p.commit_id
    unfolding read_commit
    read-ne-new id c fresh h same =
        ground (arith, fresh, h, ap (λ (i : Text). lookup i s.commits) same)

    Chain-kept :
        (id : Text) (ids : List Text)
        → lookup p.commit_id s.commits ≡ none
        → Chain s id ids
        → Chain (published s p) id ids
    Chain-kept id ids fresh start = start
    Chain-kept id ids fresh (more _ c rest some_id read chain) =
        more id c rest some_id (read_commit-published id (read-ne-new id c fresh read) ∙ read)
          (Chain-kept c.previous_id rest fresh chain)

    tip_of-published :
        (key : Text)
        → Grows s p key
        → (node : Text)
        → tip_of p.new_state node ≡ (if key == node then p.commit_id else tip_of s.state node)
    tip_of-published key g node =
        ap (λ (tips : Map Text). unwrap_or (lookup node tips) []) g.tips
        ∙ ground (arith, lookup-insert key node p.commit_id s.state.tips)

    -- The history of every object, from what the new record stands on.
    Chain-published :
        (key : Text) (g : Grows s p key) (base : List Text → List Text)
        → lookup p.commit_id s.commits ≡ none
        → p.commit_id ≢ []
        → ((ids : List Text)
            → Chain s (tip_of s.state key) ids
            → Chain s p.record_.previous_id (base ids))
        → (node : Text) (ids : List Text) → Chain s (tip_of s.state node) ids
        → Chain
            (published s p)
            (tip_of p.new_state node)
            (if key == node then p.commit_id ∷ base ids else ids)
    Chain-published key g base fresh some_id below node ids chain =
        elim (Bool-cases (key == node)) [
          | inl same ↦
              let at : node ≡ key = sym ((text_beq_iff key node).0 same) in
              rw (tip_of-published key g node, same)
                (more p.commit_id p.record_ (base ids) some_id (read_commit-new g.valid.0 g.valid.1)
                  (Chain-kept p.record_.previous_id (base ids) fresh (below ids (rw at at chain))))
          | inr other ↦
              rw (tip_of-published key g node, other)
                (Chain-kept (tip_of s.state node) ids fresh chain)
        ]

    -- A command that writes a record adds it to the history of one object, on top of its tip or as
    -- the first, and leaves the history of every other object as it was. The new id is not in use.
    pub Writes-log :
        (env : Env) (reader : Reader)
        → Writes env reader s p
        → lookup p.commit_id s.commits ≡ none
        → p.commit_id ≢ []
        → (key : Text) × (root : Bool) × ((node : Text) (ids : List Text)
            → Chain s (tip_of s.state node) ids
            → Chain
                (published s p)
                (tip_of p.new_state node)
                (if key == node then p.commit_id ∷ (if root then [] else ids) else ids))
    Writes-log env reader w fresh some_id =
        let (key, g) = Writes-Grows env reader s p w in
        elim g.chained [
          | inl on_top ↦ (
            key,
            false,
            Chain-published key g (λ ids. ids) fresh some_id (λ ids chain. rw on_top chain),
          )
          | inr root ↦ (
            key,
            true,
            Chain-published key g (λ ids. []) fresh some_id (λ ids chain. rw root start),
          )
        ]

  -- The stores that the commands build from one, new ids in each publication.
  pub data Reach (env : Env) (reader : Reader) (s : Store) : Store → Type 0 where
    none_yet : Reach env reader s s
    then_publish :
        (t : Store) (p : Publication)
        → Reach env reader s t
        → Writes env reader t p
        → lookup p.commit_id t.commits ≡ none
        → p.commit_id ≢ []
        → Reach env reader s (published t p)

  abbrev pub HasHistories : Store → Type 0
  HasHistories s = (node : Text) → (ids : List Text) × Chain s (tip_of s.state node) ids

  -- Every object of a store that the commands have built from one whose histories are whole has a
  -- whole history: its records can all be read, down to a root, and there is no cycle among them.
  pub Reach-HasHistories :
      (env : Env) (reader : Reader) (s t : Store)
      → HasHistories s
      → Reach env reader s t
      → HasHistories t
  unfolding published
  Reach-HasHistories env reader s _ h none_yet = h
  Reach-HasHistories env reader s _ h (then_publish t p r w fresh some_id) = λ node.
      let (ids, chain) = Reach-HasHistories env reader s t h r node in
      let (key, root, step) = Writes-log t p env reader w fresh some_id in (_, step node ids chain)
