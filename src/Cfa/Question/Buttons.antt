-- ===== src/Cfa/Question/Buttons.antt =====
-- A row of buttons is as wide as `rbsMinWidth` says, while that fits a byte.
use gprovision.Cfa.Errors.{ok}
use gprovision.Cfa.Question.{
  create_button_set, min_width_from, rbs_min_width, render, render_button, render_from,
}
use gprovision.Prelude.{
  Bytes, List, [], arith, length, length-append, refl, u8, ℕ, ◌%◌, ◌++◌, ◌+◌, ◌<◌, ◌∷◌, ◌≡◌, ◌≤◌,
}

abbrev pub total_width : List Bytes → ℕ
total_width [] = 0
total_width (o ∷ os) = length o + 2 + total_width os

length-render_from :
    (i : ℕ) (bs : List Bytes) (sel : ℕ) → length (render_from i bs sel) ≡ total_width bs
unfolding render_from render_button
length-render_from i [] sel = refl
length-render_from i (b ∷ bs) sel = ground (
  arith,
  length-append (0x10 ∷ (b ++ 0x11 ∷ [])) (render_from (i + 1) bs sel),
  length-append (0x20 ∷ (b ++ 0x20 ∷ [])) (render_from (i + 1) bs sel),
  length-append b (0x11 ∷ []),
  length-append b (0x20 ∷ []),
  length-render_from (i + 1) bs sel,
)

min_width_from-mod :
    (bs : List Bytes) (w : ℕ) → w < 256 → min_width_from w bs ≡ (w + total_width bs) % 256
unfolding min_width_from
min_width_from-mod [] w h = omega arith
min_width_from-mod (b ∷ bs) w h =
    omega (arith, min_width_from-mod bs (u8 (w + u8 (u8 (length b) + 2))) (omega arith))

-- The rendered row has exactly the total width, and `rbsMinWidth` is that width cut to a byte.
pub render_width :
    (opts : List Bytes) (selection : ℕ)
    → (length (render opts selection) ≡ total_width opts)
      × (rbs_min_width opts ≡ length (render opts selection) % 256)
unfolding render rbs_min_width
render_width opts selection =
    let n = length-render_from 0 opts selection in
    (n, omega (arith, min_width_from-mod opts 0 (omega arith), n))

-- Buttons that are accepted and are less than 256 columns wide in all fit the row, whichever is
-- selected.
create_button_set-fits :
    (w : ℕ) (opts out : List Bytes) (selection : ℕ)
    → create_button_set w opts ≡ ok out
    → total_width opts < 256
    → (out ≡ opts) × (length (render out selection) ≤ w)
unfolding create_button_set
create_button_set-fits w opts out selection e small = ground (arith, render_width opts selection)
