-- ===== src/Sources/Scope.antt =====
-- src/sources/scope.rs, `seg_match`: a pattern against one segment of a path.
pub mod Segment
pub mod Complete
pub mod Included
mod Tests
use oh_my_document.Prelude.{
  ℕ, zero, suc, ◌+◌, ◌*◌, Bool, true, false, not, ◌&&◌, ◌||◌, List, [], ◌∷◌, ◌++◌, Text, text_eq,
  Option, none, some, nat_beq, strip_prefix, starts_with, ◌==◌, if◌then◌else◌, length, codes,
}
use mathlib.Core.List.{tail}

-- Before the next turn: `pb[pi..]`, `sb[si..]` and, where a star was met, the pattern behind it
-- with `sb[ss..]`.
pub data Turn : Type 0 where
  stop : Bool → Turn
  go : Text → Text → Option (Text × Text) → Turn

-- `while pi < pb.len() && pb[pi] == '*'`, and the test after it.
unfoldable pub only_stars : Text → Bool
only_stars [] = true
only_stars (x ∷ p) = nat_beq x b'*' && only_stars p

unfoldable pub retry : Option (Text × Text) → Turn
retry none = stop false
retry (some (q, t)) = go q (tail t) (some (q, tail t))

-- One turn of the loop over the text, and what follows the loop.
unfoldable pub turn : Text → Text → Option (Text × Text) → Turn
turn p [] restart = stop (only_stars p)
turn [] (c ∷ s) restart = retry restart
turn (x ∷ p) (c ∷ s) restart =
    if nat_beq x b'?' || nat_beq x c
    then go p s restart
    else if nat_beq x b'*'
    then go p (c ∷ s) (some (p, c ∷ s))
    else retry restart

unfoldable pub run : ℕ → Text → Text → Option (Text × Text) → Option Bool
run zero p s restart = none
run (suc fuel) p s restart = elim (turn p s restart) [
  | stop b ↦ some b
  | go p_next s_next next ↦ run fuel p_next s_next next
]

-- Each end of the text is tried once, with at most the pattern's length of turns.
unfoldable pub seg_match : Text → Text → Option Bool
seg_match p s = run (suc (length s * suc (length p) + length p)) p s none
