-- ===== src/Cfa/View/Spec.antt =====
-- What a menu promises, without its window: a cursor that moves up and down and stops at the ends.
use mathlib.Core.Path.{ap₂}
use gprovision.Cfa.View.{Choice, View, choice_cancel, choice_none, create_view, item, run, update}
use gprovision.Prelude.{
  List, [], ap, arith, if◌then◌else◌, inl, inr, ltb, map, refl, sym, ℕ, ◌+◌, ◌-◌, ◌<◌, ◌==◌, ◌||◌,
  ◌∙◌, ◌∷◌, ◌≡◌, ◌≢◌, ◌⊎◌,
}
use gprovision.Cfa.Key

pub data Action : Type 0 where
  up down enter cancel other : Action

-- What a key means, on either model.
unfoldable pub action : ℕ → Action
action k =
    if k == Key.ul_release || k == Key.up_release
    then up
    else if k == Key.ll_release || k == Key.down_release
    then down
    else if k == Key.ur_release || k == Key.enter_release
    then enter
    else if k == Key.lr_release || k == Key.exit_release
    then cancel
    else other

abbrev pub moved : ℕ → ℕ → Action → ℕ
moved items s up = s - 1
moved items s down = if ltb (s + 1) items then s + 1 else s
moved items s _ = s

abbrev pub decided : ℕ → Action → Choice
decided s enter = item s
decided s cancel = choice_cancel
decided s _ = choice_none

-- The choice that a sequence of actions makes, from item `s` on.
abbrev pub chosen : ℕ → ℕ → List Action → Choice
chosen items s [] = choice_none
chosen items s (a ∷ acts) = elim (decided s a) [
  | choice_none ↦ chosen items (moved items s a) acts
  | choice_cancel ↦ choice_cancel
  | item i ↦ item i
]

update-moved :
    (v : View) (k : ℕ)
    → ((update v k).selected ≡ moved v.items v.selected (action k)) × ((update v k).items ≡ v.items)
unfolding update action
update-moved v k = ground arith

update-decided :
    (v : View) (k : ℕ)
    → v.choice ≡ choice_none
    → (update v k).choice ≡ decided v.selected (action k)
unfolding update action
update-decided v k h = ground arith

run_done : (ks : List ℕ) (v : View) → v.choice ≢ choice_none → (run v ks).1 ≡ v.choice
unfolding run
run_done [] v h = ground arith
run_done (k ∷ ks) v h = ground arith

run_step :
    (v : View) (k : ℕ) (ks : List ℕ) → v.choice ≡ choice_none → run v (k ∷ ks) ≡ run (update v k) ks
unfolding run
run_step v k ks h = ground arith

chosen_go :
    (items s : ℕ) (a : Action) (acts : List Action)
    → decided s a ≡ choice_none
    → chosen items s (a ∷ acts) ≡ chosen items (moved items s a) acts
chosen_go items s up acts h = refl
chosen_go items s down acts h = refl
chosen_go items s other acts h = refl
chosen_go items s _ acts h = cc

chosen_stop :
    (items s : ℕ) (a : Action) (acts : List Action)
    → decided s a ≢ choice_none
    → chosen items s (a ∷ acts) ≡ decided s a
chosen_stop items s enter acts h = refl
chosen_stop items s cancel acts h = refl
chosen_stop items s _ acts h = absurd (h refl)

Choice-cases : (c : Choice) → (c ≡ choice_none) ⊎ (c ≢ choice_none)
Choice-cases choice_none = inl refl
Choice-cases choice_cancel = inr (λ e. cc)
Choice-cases (item i) = inr (λ e. cc)

-- `Run` returns what the plain cursor chooses: windowing and drawing do not affect the choice.
pub run-chosen :
    (ks : List ℕ) (v : View)
    → v.choice ≡ choice_none
    → (run v ks).1 ≡ chosen v.items v.selected (map action ks)
run-chosen [] v h = unfold run in ground arith
run-chosen (k ∷ ks) v h =
    let a = action k in
    let (where_to, same) = update-moved v k in
    let d = update-decided v k h in
    let acts = map action ks in
    ap (λ r. r.1) (run_step v k ks h) ∙ elim (Choice-cases (decided v.selected a)) [
      | inl go ↦
          run-chosen ks (update v k) (d ∙ go)
          ∙ ap₂ (λ n s. chosen n s acts) same where_to
          ∙ sym (chosen_go v.items v.selected a acts go)
      | inr stop ↦
          run_done ks (update v k) (λ e. stop (sym d ∙ e))
          ∙ d
          ∙ sym (chosen_stop v.items v.selected a acts stop)
    ]

chosen-lt :
    (acts : List Action) (items s : ℕ) {i : ℕ}
    → s < items
    → chosen items s acts ≡ item i
    → i < items
chosen-lt [] items s h e = cc
chosen-lt (up ∷ acts) items s h e = chosen-lt acts items (s - 1) (omega arith) e
chosen-lt (down ∷ acts) items s h e =
    chosen-lt acts items (if ltb (s + 1) items then s + 1 else s) (ground arith) e
chosen-lt (other ∷ acts) items s h e = chosen-lt acts items s h e
chosen-lt (enter ∷ acts) items s h e = ground arith
chosen-lt (cancel ∷ acts) items s h e = cc

-- A menu with items returns only an item that it has, whatever keys are pressed.
run-lt_items :
    (items height : ℕ) (ks : List ℕ) {i : ℕ}
    → 0 < items
    → (run (create_view items height) ks).1 ≡ item i
    → i < items
unfolding create_view
run-lt_items items height ks h e =
    chosen-lt (map action ks) items 0 h (sym (run-chosen ks (create_view items height) refl) ∙ e)
