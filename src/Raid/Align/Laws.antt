-- ===== src/Raid/Align/Laws.antt =====
-- What `align` keeps.
use gprovision.Prelude.{arith, true, ℕ, ◌+◌, ◌<◌, ◌↔◌, ◌≡◌, ◌≤◌}
use gprovision.Raid.Align.{align_pos, in_range, position, ℤ}

-- The parts of an offset from the start.
pub align_pos_lem :
    (a how : ℕ)
    → 0 < how
    → ((align_pos a how).0 + (align_pos a how).1 ≡ a) × ((align_pos a how).1 < how)
unfolding align_pos
align_pos_lem a how h = (grind arith, grind arith)

-- Whether an access is in range does not depend on the alignment.
pub in_range_iff :
    (dev_size alignment : ℕ) (at : ℤ) (size : ℕ)
    → 0 < alignment
    → (in_range dev_size alignment at size ≡ true) ↔ (position dev_size at + size ≤ dev_size)
unfolding in_range
in_range_iff dev_size alignment at size h =
    let sum = align_pos_lem (position dev_size at + size) alignment h in ground (arith, sum.0)
