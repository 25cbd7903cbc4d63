-- ===== src/Cfa/Text/Visible.antt =====
-- What `visible` shows of a text that scrolls through a window.
use Prim.Native.Nat.{min}
use gprovision.Cfa.Text.{set_first, set_last, sym_gt_gt, sym_lt_lt, visible}
use gprovision.Prelude.{
  Bool, Bytes, [], ap, arith, drop, if◌then◌else◌, length, length-drop, length-take, ltb, refl, suc,
  take, true, ℕ, ◌+◌, ◌-◌, ◌<◌, ◌∷◌, ◌≡◌, ◌≤◌,
}

abbrev pub window : Bytes → ℕ → ℕ → Bytes
window txt start width = take width (drop start txt)

-- The window with a symbol in its first place if there is text before it, and one in its last
-- place if there is text behind it.
abbrev pub marked : Bytes → ℕ → ℕ → Bytes
marked txt start width =
    let w = window txt start width in
    let l = if ltb 0 start then set_first w sym_lt_lt else w in
    if ltb (start + width) (length txt) then set_last l sym_gt_gt else l

length-set_first : (bs : Bytes) (v : ℕ) → length (set_first bs v) ≡ length bs
length-set_first [] v = refl
length-set_first (b ∷ bs) v = refl

length-set_last : (bs : Bytes) (v : ℕ) → length (set_last bs v) ≡ length bs
length-set_last [] v = refl
length-set_last (b ∷ []) v = refl
length-set_last (b ∷ c ∷ bs) v = ap suc (length-set_last (c ∷ bs) v)

length-window :
    (txt : Bytes) (start width : ℕ)
    → length (window txt start width) ≡ min width (length txt - start)
length-window txt start width =
    omega (arith, length-take width (drop start txt), length-drop start txt)

-- The text shown is as wide as the window, or as what is left of the text.
pub length-visible :
    (txt : Bytes) (start width : ℕ) (ellipsis : Bool)
    → length (visible txt start width ellipsis) ≡ min width (length txt - start)
unfolding visible
length-visible txt start width ellipsis = ground (
  arith,
  length-window txt start width,
  length-set_first (window txt start width) sym_lt_lt,
  length-set_last (window txt start width) sym_gt_gt,
  length-set_last (set_first (window txt start width) sym_lt_lt) sym_gt_gt,
)

-- With symbols asked for, in a window of more than three columns that ends before column 256 of
-- the text, `visible` marks exactly the sides on which text is hidden.
visible-marked :
    (txt : Bytes) (start width : ℕ)
    → start < length txt
    → 3 < width
    → start + width < 256
    → visible txt start width true ≡ marked txt start width
unfolding visible
visible-marked txt start width h w small = ground arith

-- Where the byte sum wraps, the right-hand symbol replaces the last byte although the text ends
-- inside the window.
visible_false_marker :
    (txt : Bytes) (start width : ℕ)
    → start < length txt
    → 3 < width
    → width < 256
    → 256 ≤ start + width
    → start < 256
    → length txt ≤ start + width
    → visible txt start width true
      ≡ set_last (set_first (window txt start width) sym_lt_lt) sym_gt_gt
unfolding visible
visible_false_marker txt start width h w w' wraps s ends = ground arith
