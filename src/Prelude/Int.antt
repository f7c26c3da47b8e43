-- ===== src/Prelude/Int.antt =====
-- Signed integers over the native numbers, under the library's names.
use funnelmanager.Prelude.{ℕ, suc, ◌+◌, ◌-◌, ◌≤◌, Bool, ltb, leb, if◌then◌else◌}

-- `negsuc n` is -(n + 1).
pub data ℤ : Type 0 where
  pos : ℕ → ℤ
  negsuc : ℕ → ℤ

abbrev pub pos_part : ℤ → ℕ
pos_part (pos n) = n
pos_part (negsuc n) = 0

abbrev pub neg_part : ℤ → ℕ
neg_part (pos n) = 0
neg_part (negsuc n) = suc n

-- The integer -n of a number n.
abbrev pub neg_ℕ : ℕ → ℤ
neg_ℕ n = if leb n 0 then pos 0 else negsuc (n - 1)

-- |a - b|
abbrev pub dist : ℤ → ℤ → ℕ
dist a b =
    let l = pos_part a + neg_part b in
    let r = pos_part b + neg_part a in if leb l r then r - l else l - r

abbrev pub ltb_ℤ : ℤ → ℤ → Bool
ltb_ℤ a b = ltb (pos_part a + neg_part b) (pos_part b + neg_part a)

infix 50 ◌≤ℤ◌
abbrev pub ◌≤ℤ◌ : ℤ → ℤ → Type 0
a ≤ℤ b = pos_part a + neg_part b ≤ pos_part b + neg_part a
