-- ===== src/Relations/Identity/Walks.antt =====
-- The walks end, each turn explained: what the loops do, without their fuel.
use oh_my_document.Prelude.{
  ℕ, zero, suc, ◌<◌, ◌≤◌, true, false, not, List, [], ◌∷◌, Text, text_eq, text_beq_iff, Result, ok,
  err, is_empty, is_empty_iff, contains, retain, length, length-retain-le, Bool-cases, Result-cases,
  inl, inr, ◌≡◌, ◌≢◌, arith,
}
use oh_my_document.Prelude.Maps.{keys, contains-keys, contains_key}
use oh_my_document.Records.Commit.{Commit}
use oh_my_document.Records.Crates.{Crates}
use oh_my_document.Records.Store.{Store, StoreError, read_commit}
use oh_my_document.Relations.Identity.{RefError, ancestry_cycle, missing_predecessor}
use oh_my_document.Relations.Identity.Ancestry.{turns, read_or_missing, chain_root_from, chain_root}

-- The ids that are not visited yet.
unfoldable pub unvisited : List Text → List Text → ℕ
unvisited ids visited = length (retain (λ id. not (contains id visited)) ids)

unvisited-le :
    (ids visited : List Text) (x : Text) → unvisited ids (x ∷ visited) ≤ unvisited ids visited
unfolding unvisited retain contains
unvisited-le [] visited x = omega arith
unvisited-le (id ∷ ids) visited x = ground (arith, unvisited-le ids visited x)

pub unvisited-visit :
    (ids visited : List Text) (x : Text)
    → contains x ids ≡ true
    → contains x visited ≡ false
    → unvisited ids (x ∷ visited) < unvisited ids visited
unfolding unvisited retain contains
unvisited-visit [] visited x h k = ground arith
unvisited-visit (id ∷ ids) visited x h k = ground (
  arith,
  unvisited-le ids visited x,
  unvisited-visit ids visited x,
  text_beq_iff x id,
  text_beq_iff id x,
)

pub unvisited-nil : (ids : List Text) → unvisited ids [] ≤ length ids
unfolding unvisited
unvisited-nil ids = length-retain-le _ ids

module _ ⦃crates : Crates⦄ where
  pub read_commit-listed :
      (s : Store) (id : Text) (c : Commit)
      → read_commit s id ≡ ok c
      → contains id (keys s.commits) ≡ true
  unfolding read_commit contains_key
  read_commit-listed s id c h = ground (arith, contains-keys id s.commits)

  -- How the loop of `chain_root` goes on from an id, with the ids that it has visited.
  pub data Walks (s : Store) (commit_id : Text)
      : List Text → Text → Result RefError Text → Type 0 where
    cycles :
        (visited : List Text) (current : Text)
        → contains current visited ≡ true
        → Walks s commit_id visited current (err (ancestry_cycle current))
    misses :
        (visited : List Text) (current : Text) (e : StoreError)
        → contains current visited ≡ false
        → read_commit s current ≡ err e
        → Walks s commit_id visited current (err (missing_predecessor commit_id current))
    arrives :
        (visited : List Text) (current : Text) (c : Commit)
        → contains current visited ≡ false
        → read_commit s current ≡ ok c
        → c.previous_id ≡ []
        → Walks s commit_id visited current (ok current)
    steps :
        (visited : List Text) (current : Text) (c : Commit) (r : Result RefError Text)
        → contains current visited ≡ false
        → read_commit s current ≡ ok c
        → c.previous_id ≢ []
        → Walks s commit_id (current ∷ visited) c.previous_id r
        → Walks s commit_id visited current r

  chain_root_from-Walks :
      (s : Store) (commit_id : Text) (fuel : ℕ) (visited : List Text) (current : Text)
      → unvisited (keys s.commits) visited < fuel
      → Walks s commit_id visited current (chain_root_from s commit_id fuel visited current)
  unfolding chain_root_from read_or_missing
  chain_root_from-Walks s commit_id zero visited current h = absurd (omega arith)
  chain_root_from-Walks s commit_id (suc fuel) visited current h =
      elim (Bool-cases (contains current visited)) [
        | inl old ↦ rw old (cycles visited current old)
        | inr new ↦ elim (Result-cases (read_commit s current)) [
          | inr (e, missing) ↦ rw (new, missing) (misses visited current e new missing)
          | inl (c, found) ↦ elim (Bool-cases (is_empty c.previous_id)) [
            | inl root ↦
                rw (new, found, root)
                  (arrives visited current c new found ((is_empty_iff c.previous_id).0 root))
            | inr child ↦
                rw (new, found, child)
                  (steps visited current c _ new found (ground (arith, is_empty_iff c.previous_id))
                    (chain_root_from-Walks s commit_id fuel (current ∷ visited) c.previous_id (
                      omega (
                        arith,
                        unvisited-visit (keys s.commits) visited current
                            (read_commit-listed s current c found) new,
                      ))))
          ]
        ]
      ]

  -- The walk of `chain_root` runs to one of the ends of its loop on every store, whatever
  -- cycles its ancestry has: the fuel is never used up.
  pub chain_root-Walks : (s : Store) (id : Text) → Walks s id [] id (chain_root s id)
  unfolding chain_root turns
  chain_root-Walks s id =
      chain_root_from-Walks s id _ [] id (omega (arith, unvisited-nil (keys s.commits)))
