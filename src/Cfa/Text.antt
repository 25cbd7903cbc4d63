-- ===== src/Cfa/Text.antt =====
-- pkg/hw/cfa/util.go: text cut and padded to the display. LcdTxt is a list of bytes, and widths
-- and positions are bytes, so their sums wrap at 256.
pub mod Fit
pub mod Widths
pub mod Visible
use Prim.Native.Nat.{max}
use gprovision.Prelude.{
  Bool, Bytes, List, Option, [], cut, drop, if◌then◌else◌, leb, length, ltb, none, not, replicate,
  some, suc, take, u8, zero, ℕ, ◌++◌, ◌+◌, ◌-◌, ◌==◌, ◌||◌, ◌∷◌,
}

abbrev pub space : ℕ
space = 0x20

-- `imin`
abbrev pub imin : ℕ → ℕ → ℕ
imin a b = if ltb a b then a else b

-- `bytes.LastIndex(msg, " ")`; `none` is -1.
unfoldable pub last_space : Bytes → Option ℕ
last_space [] = none
last_space (b ∷ bs) = elim (last_space bs) [
  | some i ↦ some (suc i)
  | none ↦ if b == space then some 0 else none
]

-- `wrapPos`: `msg[:width+1]` with the sum in a byte.
unfoldable pub wrap_pos : Bytes → ℕ → ℕ
wrap_pos msg width =
    if leb (length msg) width
    then u8 (length msg)
    else elim (last_space (take (u8 (width + 1)) msg)) [ some i ↦ u8 i | none ↦ 0 ]

-- `bytes.TrimLeft(msg, " ")`
unfoldable pub trim_left : Bytes → Bytes
trim_left [] = []
trim_left (b ∷ bs) = let rest = trim_left bs in if b == space then rest else b ∷ bs

-- Where one round of `fit` cuts.
unfoldable pub next_wrap : Bytes → ℕ → ℕ
next_wrap msg col = let n = wrap_pos msg col in if n == 0 then u8 (imin (length msg) col) else n

-- The loop of `fit`, with the number of lines that may still be appended. It stops once there are
-- more than `rect.Row` lines, so it makes at most Row + 1 rounds.
fit_lines : ℕ → Bytes → ℕ → List Bytes
fit_lines zero msg col = []
fit_lines (suc n) [] col = []
fit_lines (suc n) (b ∷ bs) col =
    let cut = next_wrap (b ∷ bs) col in
    take cut (b ∷ bs) ∷ fit_lines n (trim_left (drop cut (b ∷ bs))) col

pub record Coord : Type 0 where
  pub col : ℕ
  pub row : ℕ

unfoldable pub fit : Bytes → Coord → List Bytes
unfolding fit_lines
fit msg rect = fit_lines (rect.row + 1) msg rect.col

-- `pad`: `Sprintf("%s%*s")`. `int(w) - len(line)` below zero is set to zero.
unfoldable pub pad : Bytes → ℕ → Bytes
pad line w = line ++ replicate (w - length line) space

unfoldable pub truncate : Bytes → ℕ → Bytes
truncate txt max = if leb (length txt) max then txt else take max txt

unfoldable pub padcate : Bytes → ℕ → Bytes
unfolding pad truncate
padcate txt w = pad (truncate txt w) w

-- SymLtLt and SymGtGt.
abbrev pub sym_lt_lt : ℕ
sym_lt_lt = 0x14

abbrev pub sym_gt_gt : ℕ
sym_gt_gt = 0x15

abbrev pub set_first : Bytes → ℕ → Bytes
set_first [] v = []
set_first (b ∷ bs) v = v ∷ bs

abbrev pub set_last : Bytes → ℕ → Bytes
set_last [] v = []
set_last (b ∷ []) v = v ∷ []
set_last (b ∷ c ∷ bs) v = b ∷ set_last (c ∷ bs) v

-- `visible`: the test for text behind the window adds `start` and `width` as bytes.
unfoldable pub visible : Bytes → ℕ → ℕ → Bool → Bytes
visible txt start width ellipsis =
    let l = length txt in
    if leb l start || width == 0
    then []
    else let vis = take width (drop start txt) in
      if not ellipsis || leb width 3
      then vis
      else let output = if start == 0 then vis else set_first vis sym_lt_lt in
        if ltb (u8 (start + width)) l then set_last output sym_gt_gt else output
