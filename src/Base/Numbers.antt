-- ===== src/Base/Numbers.antt =====
-- Signed integers from a request, and laws of division by a variable.
use Prim.Native.Nat.{ℕ, ◌+◌, ◌*◌, ◌/◌, ◌%◌, ◌≤◌, ◌<◌, min, max}
use mathlib.Core.Path.{◌≡◌}
use mathlib.Core.Option.{Option, none, some}
use native.Mathlib.Omega.{arith}
use native.Mathlib.Nat.{mod-eq_of_lt}
use rollpig_cloud.Base.Tests.{if◌then◌else◌, ◌==◌}

-- An integer that a client sends; `negsuc n` is -(n + 1).
pub data ℤ : Type 0 where
  pos : ℕ → ℤ
  negsuc : ℕ → ℤ

-- `max(low, min(high, v))` for a natural `low`
abbrev pub clamp : ℕ → ℕ → ℤ → ℕ
clamp low high (pos n) = max low (min high n)
clamp low high (negsuc n) = low

-- `int(v or default)`
abbrev pub int_or : Option ℤ → ℕ → ℤ
int_or none d = pos d
int_or (some (pos n)) d = if n == 0 then pos d else pos n
int_or (some (negsuc n)) d = negsuc n

pub clamp_bounds :
    (low high : ℕ) (v : ℤ) → low ≤ high → (low ≤ clamp low high v) × (clamp low high v ≤ high)
clamp_bounds low high (pos n) h = omega arith
clamp_bounds low high (negsuc n) h = omega arith

pub div-mul-add-mod : (a r : ℕ) → 0 < r → (a / r) * r + a % r ≡ a
div-mul-add-mod a r h = grind arith

pub mod-lt_pos : (a r : ℕ) → 0 < r → a % r < r
mod-lt_pos a r h = grind arith

-- The quotient is determined by its remainder's range.
pub div_unique : (a r q s : ℕ) → a ≡ q * r + s → s < r → a / r ≡ q
div_unique a r q s e h = grind arith

pub mul_mono : (a b r : ℕ) → a ≤ b → a * r ≤ b * r
mul_mono a b r h = grind arith

pub mod_small : (a r : ℕ) → a < r → a % r ≡ a
mod_small a r h = mod-eq_of_lt h
