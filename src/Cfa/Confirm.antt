-- ===== src/Cfa/Confirm.antt =====
-- pkg/hw/cfa/question.go: `ConfirmChoice` and the loop of `MenuWithConfirm`. What the user answers
-- to each menu and each question is the environment's.
pub mod Laws
use gprovision.Cfa.View.{Choice, choice_cancel, choice_none, item}
use gprovision.Prelude.{
  Bool, List, Option, [], false, if◌then◌else◌, leb, none, some, true, ℕ, ◌+◌, ◌∷◌,
}

pub data Answer : Type 0 where
  answer_na answer_no answer_yes : Answer

abbrev pub max_timeouts : ℕ
max_timeouts = 2

-- `ConfirmChoice`: no question is asked for an index out of range. `asked` is what `YesNo` returns.
unfoldable pub confirm_choice : ℕ → Choice → Answer → Answer
confirm_choice items (item i) asked = if leb items i then answer_na else asked
confirm_choice items choice_none asked = asked
confirm_choice items choice_cancel asked = asked

-- One round: the menu's choice, and the answer that `YesNo` would give.
pub record Round : Type 0 where
  pub choice : Choice
  pub asked : Answer

abbrev pub timed_out : Choice → Answer → Bool
timed_out choice_none answer_na = true
timed_out _ _ = false

-- The loop with its timeout count; it starts a round only while the answer is not yes. `none` means
-- that the rounds given were used up and the loop goes on.
unfoldable pub confirm_loop : ℕ → ℕ → List Round → Option (Choice × Answer)
unfolding confirm_choice
confirm_loop items count [] = none
confirm_loop items count (r ∷ rs) =
    let confirm = confirm_choice items r.choice r.asked in
    let count' = if timed_out r.choice confirm then count + 1 else count in
    let again = confirm_loop items count' rs in
    let done = some (r.choice, confirm) in
    if leb max_timeouts count' then done else elim confirm [ answer_yes ↦ done | _ ↦ again ]

-- `MenuWithConfirm`
unfoldable pub menu_with_confirm : ℕ → List Round → Option (Choice × Answer)
menu_with_confirm items rs = confirm_loop items 0 rs
