-- ===== src/Relations/Identity/Roots.antt =====
-- What `chain_root` finds: the end of the chain of predecessors, or a cycle in it.
use oh_my_document.Prelude.{
  ℕ, suc, ◌<◌, ◌≤◌, true, List, [], ◌∷◌, Text, text_eq, text_beq_iff, Result, ok, err, ◌∙◌,
  contains, ◌==◌, Bool-cases, inl, inr, ap, sym, false, subst, ◌↔◌, ◌≡◌, ◌≢◌, refl, arith,
}
use oh_my_document.Records.Commit.{Commit}
use oh_my_document.Records.Crates.{Crates}
use oh_my_document.Records.Store.{Store, StoreError, read_commit}
use oh_my_document.Relations.Identity.{RefError, ancestry_cycle, missing_predecessor}
use oh_my_document.Relations.Identity.Ancestry.{chain_root}
use oh_my_document.Relations.Identity.Walks.{
  Walks, cycles, misses, arrives, steps, chain_root-Walks,
}

nothing_in_nil : (v : Text) → contains v [] ≢ true
unfolding contains
nothing_in_nil v h = ground arith

module _ ⦃crates : Crates⦄ where
  -- The chain of predecessors ends after `n` steps: in a record without a predecessor, or in
  -- an id without a record.
  pub data Ends (s : Store) (commit_id : Text) : Text → ℕ → Result RefError Text → Type 0 where
    root :
        (id : Text) (c : Commit)
        → read_commit s id ≡ ok c
        → c.previous_id ≡ []
        → Ends s commit_id id 0 (ok id)
    broken :
        (id : Text) (e : StoreError)
        → read_commit s id ≡ err e
        → Ends s commit_id id 0 (err (missing_predecessor commit_id id))
    child :
        (id : Text) (c : Commit) (n : ℕ) (r : Result RefError Text)
        → read_commit s id ≡ ok c
        → c.previous_id ≢ []
        → Ends s commit_id c.previous_id n r
        → Ends s commit_id id (suc n) r

  -- The chain of predecessors from an id passes the ids of the list, the last one first, each for
  -- the first time, and comes to the other id.
  pub data Passes (s : Store) (start : Text) : List Text → Text → Type 0 where
    begins : Passes s start [] start
    follows :
        (visited : List Text) (current : Text) (c : Commit)
        → Passes s start visited current
        → contains current visited ≡ false
        → read_commit s current ≡ ok c
        → c.previous_id ≢ []
        → Passes s start (current ∷ visited) c.previous_id

  same_previous :
      (s : Store) (id : Text) (c d : Commit)
      → read_commit s id ≡ ok c
      → read_commit s id ≡ ok d
      → c.previous_id ≡ d.previous_id
  same_previous s id c d h k =
      ap (λ (r : Result StoreError Commit). elim r [ ok x ↦ x.previous_id | err _ ↦ [] ])
        (sym h ∙ k)

  Ends-root :
      (s : Store) {commit_id id : Text} {n : ℕ} {r : Result RefError Text} (c : Commit)
      → Ends s commit_id id n r
      → read_commit s id ≡ ok c
      → c.previous_id ≡ []
      → (n ≡ 0) × (r ≡ ok id)
  Ends-root s c (root id d read stop) h k = (refl, refl)
  Ends-root s c (broken id e read) h k = ground (arith, sym read, h)
  Ends-root s c (child id d n r read more rest) h k =
      absurd (more (same_previous s id d c read h ∙ k))

  Ends-child :
      (s : Store) {commit_id id : Text} {n : ℕ} {r : Result RefError Text} (c : Commit)
      → Ends s commit_id id n r
      → read_commit s id ≡ ok c
      → c.previous_id ≢ []
      → (m : ℕ) × (n ≡ suc m) × Ends s commit_id c.previous_id m r
  Ends-child s c (root id d read stop) h k = absurd (k (same_previous s id c d h read ∙ stop))
  Ends-child s c (broken id e read) h k = absurd (ground (arith, sym read, h))
  Ends-child s c (child id d n r read more rest) h k =
      let e : d.previous_id ≡ c.previous_id = same_previous s id d c read h in
      (n, refl, rw e at rest)

  Ends-broken :
      (s : Store) {commit_id id : Text} {n : ℕ} {r : Result RefError Text} (b : StoreError)
      → Ends s commit_id id n r
      → read_commit s id ≡ err b
      → (n ≡ 0) × (r ≡ err (missing_predecessor commit_id id))
  Ends-broken s b (root id d read stop) h = absurd (ground (arith, sym read, h))
  Ends-broken s b (broken id e read) h = (refl, refl)
  Ends-broken s b (child id d n r read more rest) h = absurd (ground (arith, sym read, h))

  -- How many steps there are to the end.
  Ends-steps :
      (s : Store) {commit_id id : Text} {n m : ℕ} {r q : Result RefError Text}
      → Ends s commit_id id n r
      → Ends s commit_id id m q
      → n ≡ m
  Ends-steps s (root id d read stop) e = ground (arith, Ends-root s d e read stop)
  Ends-steps s (broken id b read) e = sym (Ends-broken s b e read).0
  Ends-steps s (child id d n r read more rest) e =
      let (m, same, other) = Ends-child s d e read more in
      ap suc (Ends-steps s rest other) ∙ sym same

  visited-farther :
      (s : Store) {commit_id current : Text} (visited : List Text) {n : ℕ}
      {q : Result RefError Text}
      → Ends s commit_id current n q
      → ((v : Text) (m : ℕ) (p : Result RefError Text)
          → contains v visited ≡ true
          → Ends s commit_id v m p
          → n < m)
      → (v : Text) (m : ℕ) (p : Result RefError Text) → contains v (current ∷ visited) ≡ true
      → Ends s commit_id v m p
      → n ≤ m
  unfolding contains
  visited-farther s {current = current} visited e far v m p seen end =
      elim (Bool-cases (v == current)) [
        | inl same ↦
            let at : v ≡ current = (text_beq_iff v current).0 same in
            omega (arith, Ends-steps s e (rw at at end))
        | inr other ↦ omega (arith, far v m p (rw other at seen) end)
      ]

  Walks-end :
      (s : Store) {commit_id current : Text} {visited : List Text} {n : ℕ}
      {r q : Result RefError Text}
      → Walks s commit_id visited current r
      → Ends s commit_id current n q
      → ((v : Text) (m : ℕ) (p : Result RefError Text)
          → contains v visited ≡ true
          → Ends s commit_id v m p
          → n < m)
      → r ≡ q
  Walks-end s (cycles visited current old) e far = absurd (omega (arith, far current _ _ old e))
  Walks-end s (misses visited current b new read) e far = sym (Ends-broken s b e read).1
  Walks-end s (arrives visited current c new read stop) e far = sym (Ends-root s c e read stop).1
  Walks-end s (steps visited current c r new read more rest) e far =
      let (m, same, other) = Ends-child s c e read more in
      Walks-end s rest other
        (λ v k p seen end. omega (arith, same, visited-farther s visited e far v k p seen end))

  -- Where the chain of predecessors ends, `chain_root` returns that end: the id of the root, or
  -- the error that names the id without a readable record.
  pub chain_root-end :
      (s : Store) (id : Text) (n : ℕ) (r : Result RefError Text)
      → Ends s id id n r
      → chain_root s id ≡ r
  chain_root-end s id n r e =
      Walks-end s (chain_root-Walks s id) e (λ v m p seen end. absurd (nothing_in_nil v seen))

  Walks-cycle :
      (s : Store) {start current : Text} {visited : List Text} {r : Result RefError Text} (x : Text)
      → Walks s start visited current r
      → Passes s start visited current
      → r ≡ err (ancestry_cycle x)
      → (passed : List Text) × Passes s start passed x × (contains x passed ≡ true)
  Walks-cycle s x (cycles visited current old) p h =
      let at : current ≡ x = ground (arith, h) in (visited, rw at at p, rw at at old)
  Walks-cycle s x (misses visited current e new read) p h = absurd (ground (arith, h))
  Walks-cycle s x (arrives visited current c new read stop) p h = absurd (ground (arith, h))
  Walks-cycle s x (steps visited current c r new read more rest) p h =
      Walks-cycle s x rest (follows visited current c p new read more) h

  Walks-next :
      (s : Store) {start current : Text} {visited : List Text} {r : Result RefError Text}
      (c : Commit)
      → Walks s start visited current r
      → contains current visited ≡ false
      → read_commit s current ≡ ok c
      → c.previous_id ≢ []
      → Walks s start (current ∷ visited) c.previous_id r
  Walks-next s c (cycles visited current old) new read more = absurd (ground (arith, old, new))
  Walks-next s c (misses visited current e _ missing) new read more =
      absurd (ground (arith, missing, read))
  Walks-next s c (arrives visited current d _ found stop) new read more =
      absurd (more (same_previous s current c d read found ∙ stop))
  Walks-next s {start = start} c (steps visited current d r _ found _ rest) new read more =
      subst (λ previous. Walks s start (current ∷ visited) previous r)
        (same_previous s current d c found read) rest

  Passes-Walks :
      (s : Store) (start : Text) {visited : List Text} {current : Text}
      → Passes s start visited current
      → Walks s start visited current (chain_root s start)
  Passes-Walks s start begins = chain_root-Walks s start
  Passes-Walks s start (follows visited current c p new read more) =
      Walks-next s c (Passes-Walks s start p) new read more

  Walks-again :
      (s : Store) {start x : Text} {visited : List Text} {r : Result RefError Text}
      → Walks s start visited x r
      → contains x visited ≡ true
      → r ≡ err (ancestry_cycle x)
  Walks-again s (cycles visited current old) again = refl
  Walks-again s (misses visited current e new read) again = absurd (ground (arith, new, again))
  Walks-again s (arrives visited current c new read stop) again =
      absurd (ground (arith, new, again))
  Walks-again s (steps visited current c r new read more rest) again =
      absurd (ground (arith, new, again))

  -- `chain_root` answers that there is a cycle at an id just where this id is the first that the
  -- chain of predecessors comes to a second time.
  pub chain_root-cycle_iff :
      (s : Store) (id x : Text)
      → (chain_root s id ≡ err (ancestry_cycle x))
        ↔ ((passed : List Text) × Passes s id passed x × (contains x passed ≡ true))
  chain_root-cycle_iff s id x = (
    Walks-cycle s x (chain_root-Walks s id) begins,
    λ (passed, p, again). Walks-again s (Passes-Walks s id p) again,
  )
