-- ===== src/Raid/Align.antt =====
-- device.go `align` and `InRange`.
pub mod Laws
use gprovision.Prelude.{Bool, if◌then◌else◌, leb, ltb, ℕ, ◌%◌, ◌&&◌, ◌+◌, ◌-◌, ◌==◌}

-- Signed integers: `negsuc n` is -(n + 1).
pub data ℤ : Type 0 where
  pos : ℕ → ℤ
  negsuc : ℕ → ℤ

-- `align` on an offset from the start.
unfoldable pub align_pos : ℕ → ℕ → ℕ × ℕ
align_pos at how =
    if at % how == 0
    then (at, 0)
    else if ltb 0 at && ltb at how
    then (0, at)
    else (at - at % how, at % how)

-- `align`; `how` is not 0, which it is divided by. Go's remainder has the sign of `at`.
unfoldable pub align : ℤ → ℕ → ℤ × ℕ
align (pos a) how = let (res, off) = align_pos a how in (pos res, off)
align (negsuc n) how =
    if (n + 1) % how == 0
    then (negsuc n, 0)
    else (negsuc (n + (how - (n + 1) % how)), how - (n + 1) % how)

-- The place that an offset stands for; a negative one counts from the end.
abbrev pub position : ℕ → ℤ → ℕ
position size (pos a) = a
position size (negsuc n) = size - (n + 1)

-- `InRange`, for an offset that is no farther from the end than the size, and an alignment other
-- than 0.
unfoldable pub in_range : ℕ → ℕ → ℤ → ℕ → Bool
in_range dev_size alignment at size =
    let (ap', off) = align_pos (position dev_size at + size) alignment in leb (ap' + off) dev_size
