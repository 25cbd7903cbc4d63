-- ===== src/Cfa/View/Invariant.antt =====
-- The selected item exists and stays on the screen; the flags say what has to be drawn again.
use gprovision.Cfa.Buttons.{Legend, uv_x, uvdx, vdx}
use gprovision.Cfa.View.{View, create_view, update}
use gprovision.Prelude.{arith, if◌then◌else◌, true, ℕ, ◌+◌, ◌<◌, ◌==◌, ◌↔◌, ◌≡◌, ◌≢◌, ◌≤◌, ◌⊎◌}

pub record OnScreen (v : View) : Type 0 where
  pub from_first : v.first ≤ v.selected
  pub to_last : v.selected ≤ v.first + v.height
  pub exists : (v.items ≡ 0) × (v.selected ≡ 0) ⊎ (v.selected < v.items)

-- A fresh menu is on screen.
pub create_view-OnScreen : (items height : ℕ) → OnScreen (create_view items height)
unfolding create_view
create_view-OnScreen items height = ground arith

-- Every key keeps the selection on the screen and within the items.
update-OnScreen : (v : View) (k : ℕ) → OnScreen v → OnScreen (update v k)
unfolding update
update-OnScreen v k h = ground arith

-- The directions that the legend should offer at an item of a menu.
abbrev pub offered : ℕ → ℕ → Legend
offered items selected = if selected == 0 then vdx else if selected + 1 == items then uv_x else uvdx

-- On the screen, the legend offers a move up unless the first item is selected, and a move down
-- unless the last one is.
update-offered :
    (v : View) (k : ℕ)
    → OnScreen v
    → v.legend ≡ offered v.items v.selected
    → (update v k).legend ≡ offered (update v k).items (update v k).selected
unfolding update
update-offered v k h e = ground arith

-- Lines are drawn again exactly when other items are visible, and the cursor exactly when its
-- screen line changes; both never happen together.
update_flags :
    (v : View) (k : ℕ)
    → OnScreen v
    → ((update v k).redraw_lines ≡ true ↔ ((update v k).first ≢ v.first))
      × ((update v k).redraw_cursor ≡ true
          ↔ ((update v k).selected + v.first ≢ v.selected + (update v k).first))
unfolding update
update_flags v k h =
    ((λ e. ground arith, λ e. ground arith), (λ e. ground arith, λ e. ground arith))
