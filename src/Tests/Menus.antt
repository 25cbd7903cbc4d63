-- ===== src/Tests/Menus.antt =====
-- Menus, questions and key legends at concrete inputs.
use gprovision.Cfa.Buttons.{lv_x, uvdx}
use gprovision.Cfa.Confirm.{
  Round, answer_na, answer_no, answer_yes, confirm_choice, confirm_loop, menu_with_confirm,
}
use gprovision.Cfa.Confirm.Laws.{Ended, menu_with_confirm-Ended, menu_with_confirm_ends, timeouts}
use gprovision.Cfa.Errors.{ok}
use gprovision.Cfa.Question.{Question, create_button_set, rbs_min_width}
use gprovision.Cfa.Question.Keys.{IsAsked}
use gprovision.Cfa.View.{View, choice_none, create_view, item, run}
use gprovision.Cfa.View.Invariant.{OnScreen, offered}
use gprovision.Cfa.View.Spec.{action, chosen, run-chosen}
use gprovision.Prelude.{
  Bytes, List, [], arith, codes, inr, map, none, refl, some, ℕ, ◌∷◌, ◌≡◌, ◌≢◌, ◌≤◌,
}
use gprovision.Cfa.Key

-- Five items on four lines, after a move to the second.
abbrev menu : View
menu = record (create_view 5 3) { selected = 1; legend = uvdx }

menu-OnScreen : OnScreen menu
unfolding create_view
menu-OnScreen = record {
  from_first = omega arith;
  to_last = omega arith;
  exists = inr (omega arith);
}

abbrev keys : List ℕ
keys = Key.down_release ∷ Key.enter_release ∷ 0 ∷ []

run-chosen_example : (run (create_view 5 3) keys).1 ≡ chosen 5 0 (map action keys)
unfolding create_view
run-chosen_example = run-chosen keys (create_view 5 3) refl

enter_keys : (run (create_view 5 3) keys).1 ≡ item 1
unfolding action create_view
enter_keys = run-chosen keys (create_view 5 3) refl

menu_offered : menu.legend ≡ offered menu.items menu.selected
unfolding create_view
menu_offered = refl

-- Item 2 and a yes, after a timeout and a no.
abbrev rounds : List Round
rounds =
    record { choice = choice_none; asked = answer_na }
    ∷ record { choice = item 0; asked = answer_no }
    ∷ record { choice = item 2; asked = answer_yes }
    ∷ []

rounds_done : menu_with_confirm 3 rounds ≡ some (item 2, answer_yes)
unfolding menu_with_confirm confirm_loop confirm_choice
rounds_done = refl

menu_with_confirm-Ended_example : Ended 3 (item 2) answer_yes
menu_with_confirm-Ended_example = menu_with_confirm-Ended 3 rounds rounds_done

abbrev silence : Round
silence = record { choice = choice_none; asked = answer_na }

two_timeouts : 2 ≤ timeouts 3 (silence ∷ silence ∷ [])
unfolding confirm_choice
two_timeouts = omega arith

menu_with_confirm_ends_example : menu_with_confirm 3 (silence ∷ silence ∷ []) ≢ none
menu_with_confirm_ends_example = menu_with_confirm_ends 3 (silence ∷ silence ∷ []) two_timeouts

abbrev yes_no : List Bytes
yes_no = codes "No" ∷ codes "Yes" ∷ []

yes_no_fits : create_button_set 20 yes_no ≡ ok yes_no
unfolding create_button_set rbs_min_width
yes_no_fits = refl

abbrev question : Question
question = record { btns = yes_no; selection = 1; choice = choice_none; legend = lv_x }

question-IsAsked : IsAsked question
question-IsAsked = record { some_button = omega arith; in_range = omega arith }
