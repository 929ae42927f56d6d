-- ===== src/Sources/Scope/Segment.antt =====
-- The loop of `seg_match` ends, and answers yes only for a text that the pattern describes.
use oh_my_document.Prelude.{
  ℕ, zero, suc, ◌+◌, ◌*◌, ◌<◌, ◌≤◌, Bool, true, [], ◌∷◌, Text, Option, none, some, ◌≡◌, refl, arith,
  length, nat_beq, ◌||◌, inl, inr, Bool-cases, subst, sym, ◌⊎◌,
}
use mathlib.Core.List.{tail}
use oh_my_document.Sources.Scope.{Turn, stop, go, only_stars, retry, turn, run, seg_match}

-- What the doc comment says of `?` and `*` within a segment.
pub data Matches : Text → Text → Type 0 where
  ends : Matches [] []
  exact : (c : ℕ) (p s : Text) → Matches p s → Matches (c ∷ p) (c ∷ s)
  one_char : (c : ℕ) (p s : Text) → Matches p s → Matches (b'?' ∷ p) (c ∷ s)
  star_ends : (p s : Text) → Matches p s → Matches (b'*' ∷ p) s
  star_takes : (c : ℕ) (p s : Text) → Matches (b'*' ∷ p) s → Matches (b'*' ∷ p) (c ∷ s)

only_stars-Matches : (p : Text) → only_stars p ≡ true → Matches p []
unfolding only_stars
only_stars-Matches [] h = ends
only_stars-Matches (x ∷ p) h =
    subst (λ y. Matches (y ∷ p) []) (sym (ground arith))
      (star_ends p [] (only_stars-Matches p (ground arith)))

-- A match from the restart would be a match of the whole.
unfoldable Resumes : Text → Text → Option (Text × Text) → Type 0
Resumes whole_p whole_s none = Unit {0}
Resumes whole_p whole_s (some (q, t)) = Matches (b'*' ∷ q) t → Matches whole_p whole_s

pub takes-tail : (q t : Text) → Matches (b'*' ∷ q) (tail t) → Matches (b'*' ∷ q) t
takes-tail q [] m = m
takes-tail q (c ∷ t) m = star_takes c q t m

mul_suc : (n w : ℕ) → suc n * w ≡ w + n * w
mul_suc n w = omega arith

-- The turns left: a restart costs at most the length of the pattern, and shortens the text.
unfoldable Lasts : ℕ → ℕ → Text → Text → Option (Text × Text) → Type 0
Lasts w fuel p s none = (length p < w) × (length s * w + length p < fuel)
Lasts w fuel p s (some (q, t)) =
    (length s ≤ length t)
    × (length q < w)
    × (length p ≤ length q)
    × (length t * w + length p < fuel)

-- What one turn must leave.
unfoldable Sound : Text → Text → ℕ → ℕ → Turn → Type 0
Sound whole_p whole_s w fuel (stop b) = b ≡ true → Matches whole_p whole_s
Sound whole_p whole_s w fuel (go p s restart) =
    (Matches p s → Matches whole_p whole_s)
    × Resumes whole_p whole_s restart
    × Lasts w fuel p s restart

retry-Sound :
    (whole_p whole_s p : Text) (c : ℕ) (s : Text) (restart : Option (Text × Text)) (w fuel : ℕ)
    → Resumes whole_p whole_s restart
    → Lasts w (suc fuel) p (c ∷ s) restart
    → Sound whole_p whole_s w fuel (retry restart)
unfolding Sound Resumes Lasts retry
retry-Sound whole_p whole_s p c s none w fuel r l = λ h. ground arith
retry-Sound whole_p whole_s p c s (some (q, [])) w fuel r (a, b, d, e) = ground arith
retry-Sound whole_p whole_s p c s (some (q, x ∷ t)) w fuel r (a, b, d, e) = (
  λ m. r (star_takes x q t (star_ends q t m)),
  λ m. r (star_takes x q t m),
  (omega arith, b, omega arith, omega (arith, mul_suc (length t) w)),
)

char-Matches :
    (x c : ℕ) (p s : Text)
    → (nat_beq x b'?' || nat_beq x c) ≡ true
    → Matches p s
    → Matches (x ∷ p) (c ∷ s)
char-Matches x c p s h m =
    let either : (x ≡ b'?') ⊎ (x ≡ c) = ground arith in
    elim either [
      | inl e ↦ subst (λ y. Matches (y ∷ p) (c ∷ s)) (sym e) (one_char c p s m)
      | inr e ↦ subst (λ y. Matches (y ∷ p) (c ∷ s)) (sym e) (exact c p s m)
    ]

mul_mono : (m n w : ℕ) → m ≤ n → m * w ≤ n * w
mul_mono zero n w h = omega arith
mul_mono (suc m) zero w h = omega arith
mul_mono (suc m) (suc n) w h = omega (arith, mul_suc m w, mul_suc n w, mul_mono m n w (omega arith))

char-Lasts :
    (x c : ℕ) (p s : Text) (restart : Option (Text × Text)) (w fuel : ℕ)
    → Lasts w (suc fuel) (x ∷ p) (c ∷ s) restart
    → Lasts w fuel p s restart
unfolding Lasts
char-Lasts x c p s none w fuel (a, b) = (omega arith, omega (arith, mul_suc (length s) w))
char-Lasts x c p s (some (q, t)) w fuel (a, b, d, e) = (omega arith, b, omega arith, omega arith)

star-Lasts :
    (x c : ℕ) (p s : Text) (restart : Option (Text × Text)) (w fuel : ℕ)
    → Lasts w (suc fuel) (x ∷ p) (c ∷ s) restart
    → Lasts w fuel p (c ∷ s) (some (p, c ∷ s))
unfolding Lasts
star-Lasts x c p s none w fuel (a, b) = (omega arith, omega arith, omega arith, omega arith)
star-Lasts x c p s (some (q, t)) w fuel (a, b, d, e) =
    (omega arith, omega arith, omega arith, omega (arith, mul_mono (suc (length s)) (length t) w a))

turn-Sound :
    (whole_p whole_s p s : Text) (restart : Option (Text × Text)) (w fuel : ℕ)
    → (Matches p s → Matches whole_p whole_s)
    → Resumes whole_p whole_s restart
    → Lasts w (suc fuel) p s restart
    → Sound whole_p whole_s w fuel (turn p s restart)
unfolding turn Sound Resumes
turn-Sound whole_p whole_s p [] restart w fuel f r l = λ h. f (only_stars-Matches p h)
turn-Sound whole_p whole_s [] (c ∷ s) restart w fuel f r l =
    retry-Sound whole_p whole_s [] c s restart w fuel r l
turn-Sound whole_p whole_s (x ∷ p) (c ∷ s) restart w fuel f r l =
    elim (Bool-cases (nat_beq x b'?' || nat_beq x c)) [
      | inl same ↦
          rw same ((λ m. f (char-Matches x c p s same m), r, char-Lasts x c p s restart w fuel l))
      | inr differ ↦ rw differ (elim (Bool-cases (nat_beq x b'*')) [
        | inl star ↦
            let wild : Matches (b'*' ∷ p) (c ∷ s) → Matches whole_p whole_s =
              λ m. f (subst (λ y. Matches (y ∷ p) (c ∷ s)) (sym (ground arith)) m) in
            rw star ((λ m. wild (star_ends p (c ∷ s) m), wild, star-Lasts x c p s restart w fuel l))
        | inr other ↦ rw other (retry-Sound whole_p whole_s (x ∷ p) c s restart w fuel r l)
      ])
    ]

abbrev Ends : Text → Text → Option Bool → Type 0
Ends whole_p whole_s r = (b : Bool) × (r ≡ some b) × (b ≡ true → Matches whole_p whole_s)

turn-Ends :
    (whole_p whole_s : Text) (w fuel : ℕ) (t : Turn)
    → Sound whole_p whole_s w fuel t
    → ((p s : Text) (restart : Option (Text × Text))
        → (Matches p s → Matches whole_p whole_s)
        → Resumes whole_p whole_s restart
        → Lasts w fuel p s restart
        → Ends whole_p whole_s (run fuel p s restart))
    → Ends whole_p whole_s
        (elim t [ stop b ↦ some b | go p_next s_next next ↦ run fuel p_next s_next next ])
unfolding Sound
turn-Ends whole_p whole_s w fuel (stop b) sound rest = (b, refl, sound)
turn-Ends whole_p whole_s w fuel (go p s restart) (f, r, l) rest = rest p s restart f r l

run_lem :
    (whole_p whole_s : Text) (w fuel : ℕ) (p s : Text) (restart : Option (Text × Text))
    → (Matches p s → Matches whole_p whole_s)
    → Resumes whole_p whole_s restart
    → Lasts w fuel p s restart
    → Ends whole_p whole_s (run fuel p s restart)
unfolding run
run_lem whole_p whole_s w zero p s none f r l = unfold Lasts in ground arith
run_lem whole_p whole_s w zero p s (some (q, t)) f r l = unfold Lasts in ground arith
run_lem whole_p whole_s w (suc fuel) p s restart f r l =
    turn-Ends whole_p whole_s w fuel (turn p s restart)
      (turn-Sound whole_p whole_s p s restart w fuel f r l) (run_lem whole_p whole_s w fuel)

pub seg_match-Matches :
    (p s : Text) → (b : Bool) × (seg_match p s ≡ some b) × (b ≡ true → Matches p s)
unfolding seg_match Lasts Resumes
seg_match-Matches p s =
    run_lem p s (suc (length p)) (suc (length s * suc (length p) + length p)) p s none (λ m. m) tt
      (omega arith, omega arith)
