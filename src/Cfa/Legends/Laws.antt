-- ===== src/Cfa/Legends/Laws.antt =====
-- The width that `setLegend` leaves for text.
use gprovision.Cfa.Buttons.{Legend, cfa_631, cfa_635, none_shown, uv_x, uvdx, vdx}
use gprovision.Cfa.Legends.{LegendState, set_legend}
use gprovision.Cfa.Text.{Coord}
use gprovision.Prelude.{Bool, arith, if◌then◌else◌, ◌≡◌, ◌≢◌}

-- On the 635 a legend that `setLegend` changes to takes one column if it has an arrow for up or
-- down, and none otherwise; without `also635` no legend is kept.
pub set_legend_635 :
    (dims : Coord) (lg : Legend) (also_635 : Bool) (st : LegendState)
    → st.legend ≢ lg
    → (set_legend cfa_635 dims lg also_635 st).0 ≡ (
        if also_635
        then record {
          legend = lg;
          legend_width = elim lg [ uvdx ↦ 1 | uv_x ↦ 1 | vdx ↦ 1 | _ ↦ 0 ];
        }
        else record { legend = none_shown; legend_width = 0 })
unfolding set_legend
set_legend_635 dims lg also_635 st h = ground arith

-- On the 631 three columns stay reserved whatever the legend is, also when it is switched off.
set_legend_631_width :
    (dims : Coord) (lg : Legend) (also_635 : Bool) (st : LegendState)
    → st.legend ≢ lg
    → ((set_legend cfa_631 dims lg also_635 st).0.legend ≡ lg)
      × ((set_legend cfa_631 dims lg also_635 st).0.legend_width ≡ 3)
unfolding set_legend
set_legend_631_width dims lg also_635 st h = ground arith
