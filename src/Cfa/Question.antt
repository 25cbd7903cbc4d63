-- ===== src/Cfa/Question.antt =====
-- pkg/hw/cfa/question.go: radio buttons (`render`, `rbsMinWidth`, `createButtonSet`) and the keys
-- of a question (`handleEvent`).
pub mod Buttons
pub mod Keys
use Prim.Native.Nat.{max}
use gprovision.Cfa.Buttons.{Legend, lv_x, lvrx, vrx}
use gprovision.Cfa.Errors.{Result, e_range, err, ok}
use gprovision.Cfa.View.{Choice, choice_cancel, item}
use gprovision.Prelude.{
  Bool, Bytes, List, [], if◌then◌else◌, leb, length, ltb, u8, ℕ, ◌++◌, ◌+◌, ◌-◌, ◌==◌, ◌||◌, ◌∷◌,
}
use gprovision.Cfa.Key

-- wrapArrows and wrapNone.
abbrev pub arrows : ℕ × ℕ
arrows = (0x10, 0x11)

abbrev pub no_wrap : ℕ × ℕ
no_wrap = (0x20, 0x20)

-- `radioButton.render`
unfoldable pub render_button : Bytes → Bool → Bytes
render_button txt selected =
    let style = if selected then arrows else no_wrap in style.0 ∷ (txt ++ style.1 ∷ [])

-- The loop of `radioButtonSet.render` at index `i`.
render_from : ℕ → List Bytes → ℕ → Bytes
unfolding render_button
render_from i [] selection = []
render_from i (b ∷ bs) selection =
    render_button b (selection == i) ++ render_from (i + 1) bs selection

unfoldable pub render : List Bytes → ℕ → Bytes
unfolding render_from
render btns selection = render_from 0 btns selection

-- `rbsMinWidth`: the sum is kept in a byte.
min_width_from : ℕ → List Bytes → ℕ
min_width_from w [] = w
min_width_from w (opt ∷ opts) = min_width_from (u8 (w + u8 (u8 (length opt) + 2))) opts

unfoldable pub rbs_min_width : List Bytes → ℕ
unfolding min_width_from
rbs_min_width opts = min_width_from 0 opts

-- `createButtonSet` on a display of usable width `w`.
unfoldable pub create_button_set : ℕ → List Bytes → Result (List Bytes)
create_button_set w opts = if ltb w (rbs_min_width opts) then err e_range else ok opts

pub record Question : Type 0 where
  pub btns : List Bytes
  pub selection : ℕ
  pub choice : Choice
  pub legend : Legend  -- what `setLegend` was last called with

-- `max` is `len(btns) - 1`, and every question has a button.
last_button : Question → ℕ
last_button q = length q.btns - 1

go_right : Question → Question
unfolding last_button
go_right q =
    let max = last_button q in
    if leb max q.selection then record q { selection = 0; legend = vrx } else record q {
      selection = q.selection + 1;
      legend = if q.selection + 1 == max then lv_x else lvrx;
    }

go_left : Question → Question
unfolding last_button
go_left q =
    let max = last_button q in
    if q.selection == 0 then record q { selection = max; legend = lv_x } else record q {
      selection = q.selection - 1;
      legend = if q.selection - 1 == 0 then vrx else lvrx;
    }

unfoldable pub handle_event : Question → ℕ → Question
unfolding go_right go_left
handle_event q k =
    if k == Key.ll_release || k == Key.right_release
    then go_right q
    else if k == Key.ul_release || k == Key.left_release
    then go_left q
    else if k == Key.ur_release || k == Key.enter_release
    then record q { choice = item q.selection }
    else if k == Key.lr_release || k == Key.exit_release
    then record q { choice = choice_cancel }
    else q
