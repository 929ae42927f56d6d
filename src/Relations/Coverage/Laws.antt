-- ===== src/Relations/Coverage/Laws.antt =====
-- What coverage counts, and which positions its gaps hold.
use oh_my_document.Prelude.{
  Bool-cases, inl, inr, length-retain-not, retain-ext, sym, ℕ, zero, suc, ◌+◌, ◌-◌, ◌≤◌, ◌<◌, Bool,
  false, not, ◌||◌, ◌&&◌, List, [], ◌∷◌, ltb, leb, min, ◌==◌, nat_eq, Text, length, retain,
  contains, any, contains-append, contains-retain, ◌≡◌, refl, arith, ap, get_elem?, none, some,
}
use oh_my_document.Relations.Range.{Mode, text, byte, mode_eq, Range}
use oh_my_document.Relations.Coverage.{
  is_whitespace, count_up, positions, covered_by, counted_from, gaps_from, positions_to_gaps,
  text_coverage, byte_coverage,
}

-- Some range of the mode holds the position.
unfoldable pub covers : Mode → List Range → ℕ → Bool
covers mode ranges p = any (λ r. r.mode == mode && (leb r.start p && ltb p r.end)) ranges

unfoldable pub in_gaps : List Range → ℕ → Bool
in_gaps gaps p = any (λ g. leb g.start p && ltb p g.end) gaps

contains-count_up :
    (p start n : ℕ) → contains p (count_up start n) ≡ (leb start p && ltb p (start + n))
unfolding contains count_up
contains-count_up p start zero = ground arith
contains-count_up p start (suc n) = ground (arith, contains-count_up p (start + 1) n)

contains-positions :
    (p start end : ℕ) → contains p (positions start end) ≡ (leb start p && ltb p end)
unfolding positions
contains-positions p start end = ground (arith, contains-count_up p start (end - start))

contains-covered_by :
    (mode : Mode) (p : ℕ) (ranges : List Range)
    → contains p (covered_by mode (λ end. end) ranges) ≡ covers mode ranges p
unfolding covered_by covers any contains
contains-covered_by mode p [] = refl
contains-covered_by mode p (r ∷ ranges) = ground (
  arith,
  contains-append p (positions r.start r.end) (covered_by mode (λ end. end) ranges),
  contains-positions p r.start r.end,
  contains-covered_by mode p ranges,
)

contains-covered_by-min :
    (mode : Mode) (p limit : ℕ) (ranges : List Range)
    → p < limit
    → contains p (covered_by mode (λ end. min end limit) ranges) ≡ covers mode ranges p
unfolding covered_by covers any contains
contains-covered_by-min mode p limit [] h = refl
contains-covered_by-min mode p limit (r ∷ ranges) h = ground (
  arith,
  contains-append p (positions r.start (min r.end limit))
      (covered_by mode (λ end. min end limit) ranges),
  contains-positions p r.start (min r.end limit),
  contains-covered_by-min mode p limit ranges,
)

in_gaps-gaps_from :
    (mode : Mode) (p start previous : ℕ) (rest : List ℕ)
    → start ≤ previous
    → in_gaps (gaps_from mode start previous rest) p
      ≡ ((leb start p && leb p previous) || contains p rest)
unfolding in_gaps any gaps_from contains
in_gaps-gaps_from mode p start previous [] h = ground arith
in_gaps-gaps_from mode p start previous (q ∷ rest) h =
    ground (arith, in_gaps-gaps_from mode p start q rest, in_gaps-gaps_from mode p q q rest)

in_gaps-positions_to_gaps :
    (mode : Mode) (p : ℕ) (ps : List ℕ) → in_gaps (positions_to_gaps ps mode) p ≡ contains p ps
unfolding positions_to_gaps
in_gaps-positions_to_gaps mode p [] = unfold in_gaps any contains in refl
in_gaps-positions_to_gaps mode p (q ∷ ps) =
    unfold contains in ground (arith, in_gaps-gaps_from mode p q q ps)

-- Strictly increasing, from `lo` on.
abbrev IsIncreasing : ℕ → List ℕ → Type 0
IsIncreasing lo [] = Unit
IsIncreasing lo (x ∷ xs) = (lo ≤ x) × IsIncreasing (x + 1) xs

-- Nonempty ranges in ascending order, with a position between any two, from `lo` on.
abbrev pub IsSeparated : ℕ → List Range → Type 0
IsSeparated lo [] = Unit
IsSeparated lo (g ∷ gs) = (lo ≤ g.start) × (g.start < g.end) × IsSeparated (g.end + 1) gs

IsIncreasing-weaken : (lo hi : ℕ) (xs : List ℕ) → lo ≤ hi → IsIncreasing hi xs → IsIncreasing lo xs
IsIncreasing-weaken lo hi [] h i = tt
IsIncreasing-weaken lo hi (x ∷ xs) h i = (omega arith, i.1)

IsIncreasing-retain :
    (p : ℕ → Bool) (lo : ℕ) (xs : List ℕ) → IsIncreasing lo xs → IsIncreasing lo (retain p xs)
unfolding retain
IsIncreasing-retain p lo [] i = tt
IsIncreasing-retain p lo (x ∷ xs) i =
    let rest = IsIncreasing-retain p (x + 1) xs i.1 in
    let skip = IsIncreasing-weaken lo (x + 1) (retain p xs) (omega arith) rest in
    elim (Bool-cases (p x)) [ inl e ↦ rw e (i.0, rest) | inr e ↦ rw e skip ]

IsIncreasing-count_up : (lo start n : ℕ) → lo ≤ start → IsIncreasing lo (count_up start n)
unfolding count_up
IsIncreasing-count_up lo start zero h = tt
IsIncreasing-count_up lo start (suc n) h =
    (h, IsIncreasing-count_up (start + 1) (start + 1) n (omega arith))

IsIncreasing-counted_from : (lo i : ℕ) (s : Text) → lo ≤ i → IsIncreasing lo (counted_from i s)
unfolding counted_from
IsIncreasing-counted_from lo i [] h = tt
IsIncreasing-counted_from lo i (c ∷ s) h =
    let rest = IsIncreasing-counted_from (i + 1) (i + 1) s (omega arith) in
    let skip = IsIncreasing-counted_from lo (i + 1) s (omega arith) in
    elim (Bool-cases (is_whitespace c)) [ inl e ↦ rw e skip | inr e ↦ rw e (h, rest) ]

IsSeparated-gaps_from :
    (mode : Mode) (lo start previous : ℕ) (rest : List ℕ)
    → lo ≤ start
    → start ≤ previous
    → IsIncreasing (previous + 1) rest
    → IsSeparated lo (gaps_from mode start previous rest)
unfolding gaps_from
IsSeparated-gaps_from mode lo start previous [] h k i = (h, omega arith, tt)
IsSeparated-gaps_from mode lo start previous (q ∷ rest) h k i =
    let same =
      λ (e : q ≡ previous + 1). IsSeparated-gaps_from mode lo start q rest h (omega arith) i.1 in
    let next = λ (l : previous + 1 + 1 ≤ q).
      IsSeparated-gaps_from mode (previous + 1 + 1) q q rest l (omega arith) i.1 in
    elim (Bool-cases (q == previous + 1)) [
      | inl e ↦ rw e (same (ground arith))
      | inr e ↦ rw e (h, omega arith, next (ground arith))
    ]

IsSeparated-positions_to_gaps :
    (mode : Mode) (ps : List ℕ) → IsIncreasing 0 ps → IsSeparated 0 (positions_to_gaps ps mode)
unfolding positions_to_gaps
IsSeparated-positions_to_gaps mode [] i = tt
IsSeparated-positions_to_gaps mode (q ∷ ps) i =
    IsSeparated-gaps_from mode 0 q q ps (omega arith) (omega arith) i.1

-- The character stands in the text and is no whitespace.
unfoldable pub is_counted : Text → ℕ → Bool
is_counted s p = elim (get_elem? s p) [ none ↦ false | some c ↦ not (is_whitespace c) ]

contains-counted_from_below : (s : Text) (i p : ℕ) → p < i → contains p (counted_from i s) ≡ false
unfolding contains counted_from
contains-counted_from_below [] i p h = refl
contains-counted_from_below (c ∷ s) i p h = ground (arith, contains-counted_from_below s (i + 1) p)

contains-counted_from :
    (s : Text) (i k p : ℕ) → p ≡ i + k → contains p (counted_from i s) ≡ is_counted s k
unfolding contains counted_from is_counted
contains-counted_from [] i k p h = refl
contains-counted_from (c ∷ s) i zero p h = ground (arith, contains-counted_from_below s (i + 1) p)
contains-counted_from (c ∷ s) i (suc k) p h = ground (arith, contains-counted_from s (i + 1) k p)

length-count_up : (start n : ℕ) → length (count_up start n) ≡ n
unfolding count_up
length-count_up start zero = refl
length-count_up start (suc n) = ap suc (length-count_up (start + 1) n)

length-positions : (n : ℕ) → length (positions 0 n) ≡ n
unfolding positions
length-positions n = omega (arith, length-count_up 0 (n - 0))

IsIncreasing-positions : (n : ℕ) → IsIncreasing 0 (positions 0 n)
unfolding positions
IsIncreasing-positions n = IsIncreasing-count_up 0 0 (n - 0) (omega arith)

-- The gaps of a text are ordered and apart, and hold exactly the characters that are no whitespace
-- and that no text range covers. `covered` counts the characters that are no whitespace and that
-- some text range covers, out of a `total` of all that are no whitespace.
pub text_coverage_lem :
    (ranges : List Range) (content : Text)
    → let s = text_coverage ranges content in
      (s.total ≡ length (counted_from 0 content))
      × (s.covered ≡ length (retain (covers text ranges) (counted_from 0 content)))
      × ((p : ℕ) → in_gaps s.gaps p ≡ (is_counted content p && not (covers text ranges p)))
      × IsSeparated 0 s.gaps
unfolding text_coverage
text_coverage_lem ranges content =
    let counted = counted_from 0 content in
    let covered = covered_by text (λ end. end) ranges in
    let same = λ (p : ℕ). contains-covered_by text p ranges in
    let open_ = λ (p : ℕ). not (contains p covered) in
    (
      refl,
      omega (
        arith,
        length-retain-not (λ p. contains p covered) counted,
        ap length (
            retain-ext (covers text ranges) (λ p. contains p covered) counted
              (λ p _. sym (same p))),
      ),
      λ p. ground (
        arith,
        in_gaps-positions_to_gaps text p (retain open_ counted),
        contains-retain open_ p counted,
        contains-counted_from content 0 p p,
        same p,
      ),
      IsSeparated-positions_to_gaps text (retain open_ counted) (
          IsIncreasing-retain open_ 0 counted
            (IsIncreasing-counted_from 0 0 content (omega arith))),
    )

-- The gaps of a byte source are ordered and apart, and hold exactly the bytes that no byte range
-- covers. `covered` counts the bytes of the source that some byte range covers, so a range that
-- reaches past the end counts no further than the end.
pub byte_coverage_lem :
    (ranges : List Range) (n : ℕ)
    → let s = byte_coverage ranges n in
      (s.total ≡ n)
      × (s.covered ≡ length (retain (covers byte ranges) (positions 0 n)))
      × ((p : ℕ) → in_gaps s.gaps p ≡ (ltb p n && not (covers byte ranges p)))
      × IsSeparated 0 s.gaps
unfolding byte_coverage
byte_coverage_lem ranges n =
    let covered = covered_by byte (λ end. min end n) ranges in
    let within = λ (p : ℕ). contains-positions p 0 n in
    let same = λ (p : ℕ) (h : p < n). contains-covered_by-min byte p n ranges h in
    let open_ = λ (p : ℕ). not (contains p covered) in
    (
      refl,
      omega (
        arith,
        length-retain-not (λ p. contains p covered) (positions 0 n),
        length-positions n,
        ap length (
            retain-ext (covers byte ranges) (λ p. contains p covered) (positions 0 n)
              λ p m. sym (same p (ground (arith, within p)))),
      ),
      λ p. ground (
        arith,
        in_gaps-positions_to_gaps byte p (retain open_ (positions 0 n)),
        contains-retain open_ p (positions 0 n),
        within p,
        same p,
      ),
      IsSeparated-positions_to_gaps byte (retain open_ (positions 0 n))
          (IsIncreasing-retain open_ 0 (positions 0 n) (IsIncreasing-positions n)),
    )
