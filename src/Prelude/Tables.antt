-- ===== src/Prelude/Tables.antt =====
-- Facts about every byte, checked by evaluation of a table.
use Prim.Native.Nat.{ℕ, zero, suc, ◌<◌}
use mathlib.Core.Path.{◌≡◌}
use mathlib.Core.Bool.{Bool, true, ◌&&◌}
use native.Mathlib.Omega.{arith}

unfoldable pub holds_below : (ℕ → Bool) → ℕ → Bool
holds_below p zero = true
holds_below p (suc n) = p n && holds_below p n

pub holds_below→holds :
    (p : ℕ → Bool) (n : ℕ) → holds_below p n ≡ true → (b : ℕ) → b < n → p b ≡ true
unfolding holds_below
holds_below→holds p zero h b lt = absurd (omega arith)
holds_below→holds p (suc n) h b lt = ground (arith, holds_below→holds p n (ground arith) b)
