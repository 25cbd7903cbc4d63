-- ===== src/Cfa/Legends.antt =====
-- pkg/hw/cfa/buttons.go `setLegend`: the legend, the columns that it takes, and what is sent.
-- Errors of the sends are only logged, so the state does not depend on them.
pub mod Laws
use gprovision.Cfa.Buttons.{
  Legend, Model, cfa_631, cfa_635, legend_bytes, lv_x, lvrx, none_shown, other_model, uv_x, uvdx,
  values, vdx, vrx,
}
use gprovision.Cfa.Text.{Coord}
use gprovision.Prelude.{
  Bool, Bytes, List, [], if◌then◌else◌, ltb, not, u8, ℕ, ◌++◌, ◌+◌, ◌-◌, ◌==◌, ◌||◌, ◌∷◌,
}
use gprovision.Cfa.Cmd

pub record LegendState : Type 0 where
  pub legend : Legend
  pub legend_width : ℕ

-- A command with its data.
abbrev pub Command : Type 0
Command = ℕ × Bytes

abbrev pub legend_width_631 : ℕ
legend_width_631 = 3

abbrev pub legend_width_635 : ℕ
legend_width_635 = 1

-- SymUp, SymDown, SymCaret, SymCaron, SymSpace, and the width, by the inner switch.
corners : Legend → ℕ × ℕ × ℕ
corners uvdx = (0x1a, 0x1b, legend_width_635)
corners uv_x = (0x1a, 0x1e, legend_width_635)
corners vdx = (0x1d, 0x1b, legend_width_635)
corners _ = (0x20, 0x20, 0)

-- `writeByte` at (col, row), refused beyond the display's last position.
write_byte : Coord → ℕ → ℕ → ℕ → List Command
write_byte dims col row b =
    if ltb dims.col col || ltb dims.row row then [] else (Cmd.write_disp, col ∷ row ∷ b ∷ []) ∷ []

unset : LegendState
unset = record { legend = none_shown; legend_width = 0 }

change_legend : Model → Coord → Legend → Bool → LegendState × List Command
unfolding unset
change_legend other_model dims lg also_635 = (unset, [])
change_legend cfa_631 dims lg also_635 = (
  record { legend = lg; legend_width = legend_width_631 },
  (Cmd.key_legend_on_off_mask, legend_bytes (values lg)) ∷ [],
)
change_legend cfa_635 dims lg also_635 =
    let (upchar, downchar, width) = corners lg in
    if not also_635 then (unset, []) else (
      record { legend = lg; legend_width = width },
      write_byte dims 19 0 upchar ++ write_byte dims 19 3 downchar,
    )

-- The value of the enumeration, which `==` compares.
abbrev code : Legend → ℕ
code none_shown = 0
code uvdx = 1
code vdx = 2
code uv_x = 3
code lvrx = 4
code vrx = 5
code lv_x = 6

unfoldable pub set_legend : Model → Coord → Legend → Bool → LegendState → LegendState × List Command
unfolding change_legend corners write_byte
set_legend model dims lg also_635 st =
    if code st.legend == code lg then (st, []) else change_legend model dims lg also_635

-- `Width`: the columns left beside the legend, in a byte.
unfoldable pub usable_width : Coord → LegendState → ℕ
usable_width dims st = u8 (dims.col + 256 - st.legend_width + 1)
