-- ===== src/Cfa/Question/Keys.antt =====
-- The selection of a question goes round its buttons.
use gprovision.Cfa.Question.{Question, handle_event}
use gprovision.Prelude.{arith, length, ℕ, ◌<◌, ◌≡◌}
use gprovision.Cfa.Key

pub record IsAsked (q : Question) : Type 0 where
  pub some_button : 0 < length q.btns
  pub in_range : q.selection < length q.btns

-- Any key keeps the selection on a button, and a choice is a button or a cancel.
pub handle_event-IsAsked : (q : Question) (k : ℕ) → IsAsked q → IsAsked (handle_event q k)
unfolding handle_event
handle_event-IsAsked q k h = ground arith

-- Right and left undo one another, in either order, also across the ends.
right-left :
    (q : Question)
    → IsAsked q
    → ((handle_event (handle_event q Key.right_release) Key.left_release).selection ≡ q.selection)
      × ((handle_event (handle_event q Key.left_release) Key.right_release).selection ≡ q.selection)
unfolding handle_event
right-left q h = ground arith
