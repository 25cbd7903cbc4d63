-- ===== src/Cfa/View.antt =====
-- pkg/hw/cfa/menu.go: the view of a menu (`view.update`, `view.offscreen`) and the loop of
-- `menu.Run`. `items` is the number of items, one more than the source's `max`, which is -1 for an
-- empty menu.
pub mod Invariant
pub mod Spec
use gprovision.Cfa.Buttons.{Legend, uv_x, uvdx, vdx}
use gprovision.Prelude.{
  Bool, List, [], false, if◌then◌else◌, ltb, not, true, ℕ, ◌+◌, ◌-◌, ◌==◌, ◌||◌, ◌∷◌,
}
use gprovision.Cfa.Key

-- CHOICE_NONE, CHOICE_CANCEL, and the index of an item.
pub data Choice : Type 0 where
  choice_none choice_cancel : Choice
  item : ℕ → Choice

pub record View : Type 0 where
  pub first : ℕ
  pub selected : ℕ
  pub choice : Choice
  pub items : ℕ
  pub height : ℕ
  pub redraw_lines : Bool
  pub redraw_cursor : Bool
  pub legend : Legend  -- what `v.l.setLegend` was last called with

-- The view that `createMenu` makes; `menuWithTicks` has set Legend_VDX.
unfoldable pub create_view : ℕ → ℕ → View
create_view items height = record {
  first = 0;
  selected = 0;
  choice = choice_none;
  items = items;
  height = height;
  redraw_lines = true;
  redraw_cursor = true;
  legend = vdx;
}

abbrev cleared : View → View
cleared v = record v { redraw_lines = false; redraw_cursor = false }

-- The cases of KEY_UL_RELEASE and KEY_UP_RELEASE.
go_up : View → View
go_up v =
    if v.selected == 0
    then v
    else let s = v.selected - 1 in
      let lg = if s == 0 then vdx else uvdx in
      if ltb s v.first
      then record v { selected = s; first = v.first - 1; redraw_lines = true; legend = lg }
      else record v { selected = s; redraw_cursor = true; legend = lg }

-- The cases of KEY_LL_RELEASE and KEY_DOWN_RELEASE.
go_down : View → View
go_down v =
    let s = v.selected + 1 in
    let lg = if s + 1 == v.items then uv_x else uvdx in
    if not (ltb s v.items)
    then v
    else if ltb (v.first + v.height) s
    then record v { selected = s; first = v.first + 1; redraw_lines = true; legend = lg }
    else record v { selected = s; redraw_cursor = true; legend = lg }

unfoldable pub update : View → ℕ → View
unfolding go_up go_down
update v k =
    let c = cleared v in
    if k == Key.ul_release || k == Key.up_release
    then go_up c
    else if k == Key.ll_release || k == Key.down_release
    then go_down c
    else if k == Key.ur_release || k == Key.enter_release
    then record c { choice = item v.selected }
    else if k == Key.lr_release || k == Key.exit_release
    then record c { choice = choice_cancel }
    else c

unfoldable pub offscreen : View → ℕ → Bool
offscreen v idx = ltb idx v.first || ltb (v.first + v.height) idx

-- `Run`: one event a round (KEY_NO_KEY for a tick); the list ends when `done` is closed.
unfoldable pub run : View → List ℕ → View × Choice
run v [] = (v, elim v.choice [ choice_none ↦ choice_none | c ↦ c ])
run v (k ∷ ks) =
    let rest = run (update v k) ks in
    elim v.choice [ choice_none ↦ rest | choice_cancel ↦ (v, choice_cancel) | item i ↦ (v, item i) ]
