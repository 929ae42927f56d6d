-- ===== src/Relations/Range.antt =====
-- src/relations/range.rs: half-open ranges over text positions or bytes.
pub mod Slice
pub mod Laws
mod Tests
use oh_my_document.Prelude.{
  ℕ, ◌+◌, ◌-◌, ◌%◌, Bool, true, false, ◌&&◌, ltb, if◌then◌else◌, ◌==◌, nat_eq, Result, ok, err,
  u64_mod, Eq, ◌↔◌, ◌≡◌, arith, Text, length,
}

pub data Mode : Type 0 where
  text byte : Mode

abbrev pub mode_beq : Mode → Mode → Bool
mode_beq text text = true
mode_beq byte byte = true
mode_beq _ _ = false

pub mode_beq_iff : (a b : Mode) → (mode_beq a b ≡ true) ↔ (a ≡ b)
mode_beq_iff text b = ground arith
mode_beq_iff byte b = ground arith

instance abbrev pub mode_eq : Eq Mode
mode_eq = record { same = mode_beq; same_iff = mode_beq_iff }

pub record Range : Type 0 where
  pub start : ℕ
  pub end : ℕ
  pub mode : Mode

pub data RangeError : Type 0 where
  inverted out_of_bounds decode : RangeError

unfoldable pub new : ℕ → ℕ → Mode → ℕ → Result RangeError Range
new start end mode len =
    if ltb end start
    then err inverted
    else if ltb len end
    then err out_of_bounds
    else ok (record { start = start; end = end; mode = mode })

unfoldable pub whole : Mode → ℕ → Range
whole mode len = record { start = 0; end = len; mode = mode }

-- A difference of two `u64`.
unfoldable pub len : Range → ℕ
len r = (r.end + u64_mod - r.start) % u64_mod

unfoldable pub is_empty : Range → Bool
is_empty r = r.start == r.end

unfoldable pub overlaps : Range → Range → Bool
overlaps r other = r.mode == other.mode && ltb r.start other.end && ltb other.start r.end

unfoldable pub text_len : Text → ℕ
text_len s = length s
