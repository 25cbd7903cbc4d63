-- ===== src/Cfa/Buttons.antt =====
-- pkg/hw/cfa/buttons.go: key masks, their translation to release events, and key legends.
pub mod Laws
use gprovision.Prelude.{
  Bool, Bytes, List, [], bit_and, false, if◌then◌else◌, not, true, ℕ, ◌==◌, ◌∷◌,
}
use gprovision.Cfa.Key

abbrev pub KeyMask : Type 0
KeyMask = ℕ

pub record KeyXlate : Type 0 where
  pub m : KeyMask
  pub a : ℕ

abbrev entry : KeyMask → ℕ → KeyXlate
entry m a = record { m = m; a = a }

-- KP_UP, KP_ENTER, KP_EXIT, KP_LEFT, KP_RIGHT, KP_DOWN
abbrev pub xlate_635 : List KeyXlate
xlate_635 =
    entry 1 Key.up_release
    ∷ entry 2 Key.enter_release
    ∷ entry 4 Key.exit_release
    ∷ entry 8 Key.left_release
    ∷ entry 16 Key.right_release
    ∷ entry 32 Key.down_release
    ∷ []

-- KP_UL, KP_UR, KP_LL, KP_LR
abbrev pub xlate_631 : List KeyXlate
xlate_631 =
    entry 1 Key.ul_release
    ∷ entry 2 Key.ur_release
    ∷ entry 4 Key.ll_release
    ∷ entry 8 Key.lr_release
    ∷ []

abbrev pub kp_all_631 : KeyMask
kp_all_631 = 15

abbrev pub kp_all_635 : KeyMask
kp_all_635 = 63

unfoldable pub keymask_to_activity : List KeyXlate → KeyMask → List ℕ
keymask_to_activity [] m = []
keymask_to_activity (e ∷ es) m =
    let rest = keymask_to_activity es m in if not (bit_and e.m m == 0) then e.a ∷ rest else rest

pub data Legend : Type 0 where
  none_shown uvdx vdx uv_x lvrx vrx lv_x : Legend

-- The symbol codes of the overlay.
abbrev sym_blank : ℕ
sym_blank = 0

abbrev sym_exit : ℕ
sym_exit = 1

abbrev sym_check : ℕ
sym_check = 2

abbrev sym_up : ℕ
sym_up = 3

abbrev sym_down : ℕ
sym_down = 4

abbrev sym_right : ℕ
sym_right = 5

abbrev sym_left : ℕ
sym_left = 6

pub record LegendValues : Type 0 where
  pub enable : Bool
  pub ul : ℕ
  pub ur : ℕ
  pub ll : ℕ
  pub lr : ℕ

abbrev overlay : ℕ → ℕ → LegendValues
overlay ul ll = record { enable = true; ul = ul; ur = sym_check; ll = ll; lr = sym_exit }

-- `Values`
unfoldable pub values : Legend → LegendValues
values none_shown = record { enable = false; ul = 0; ur = 0; ll = 0; lr = 0 }
values uvdx = overlay sym_up sym_down
values vdx = overlay sym_blank sym_down
values uv_x = overlay sym_up sym_blank
values lvrx = overlay sym_left sym_right
values vrx = overlay sym_blank sym_right
values lv_x = overlay sym_left sym_blank

-- `Bytes`
unfoldable pub legend_bytes : LegendValues → Bytes
legend_bytes lv = if not lv.enable then 0 ∷ [] else 1 ∷ lv.ul ∷ lv.ur ∷ lv.ll ∷ lv.lr ∷ []

-- `Model`: other values take the `default` branch of `setLegend`.
pub data Model : Type 0 where
  cfa_631 cfa_635 other_model : Model

-- The mask that `setupKeyReporting` sends for (press, release).
unfoldable pub key_reports : Model → Bool → Bool → Bytes
key_reports model press release =
    let mask : KeyMask = elim model [ cfa_635 ↦ kp_all_635 | _ ↦ kp_all_631 ] in
    (if press then mask else 0) ∷ (if release then mask else 0) ∷ []
