-- ===== src/Cfa/Confirm/Laws.antt =====
-- `MenuWithConfirm` ends with a confirmed choice or after two timeouts.
use gprovision.Cfa.Confirm.{
  Answer, Round, answer_na, answer_yes, confirm_choice, confirm_loop, max_timeouts,
  menu_with_confirm, timed_out,
}
use gprovision.Cfa.View.{Choice, choice_none, item}
use gprovision.Prelude.{
  List, [], arith, if◌then◌else◌, none, some, ℕ, ◌+◌, ◌<◌, ◌∷◌, ◌≡◌, ◌≢◌, ◌≤◌, ◌⊎◌,
}

abbrev pub IsOffered : ℕ → Choice → Type 0
IsOffered items (item i) = i < items
IsOffered items _ = Unit

-- A confirmed choice of something that was offered, or a timeout of both.
abbrev pub Ended : ℕ → Choice → Answer → Type 0
Ended items c a = (a ≡ answer_yes) × IsOffered items c ⊎ (c ≡ choice_none) × (a ≡ answer_na)

confirm_loop-Ended :
    (rs : List Round) (items count : ℕ) (c : Choice) (a : Answer)
    → count < max_timeouts
    → confirm_loop items count rs ≡ some (c, a)
    → Ended items c a
unfolding confirm_loop
confirm_loop-Ended [] items count c a h e = cc
confirm_loop-Ended (r ∷ rs) items count c a h e =
    let t = timed_out r.choice (confirm_choice items r.choice r.asked) in
    ground (arith, confirm_loop-Ended rs items (if t then count + 1 else count) c a)

-- Whatever the user does, `MenuWithConfirm` returns a choice that was confirmed, and then an item of
-- the menu if it is an item at all, or it returns after the menu and the question both timed out.
pub menu_with_confirm-Ended :
    (items : ℕ) (rs : List Round) {c : Choice} {a : Answer}
    → menu_with_confirm items rs ≡ some (c, a)
    → Ended items c a
unfolding menu_with_confirm
menu_with_confirm-Ended items rs {c} {a} e = confirm_loop-Ended rs items 0 c a (omega arith) e

abbrev pub timeouts : ℕ → List Round → ℕ
timeouts items [] = 0
timeouts items (r ∷ rs) =
    (if timed_out r.choice (confirm_choice items r.choice r.asked) then 1 else 0)
    + timeouts items rs

confirm_loop_ends :
    (rs : List Round) (items count : ℕ)
    → count < max_timeouts
    → max_timeouts ≤ count + timeouts items rs
    → confirm_loop items count rs ≢ none
unfolding confirm_loop
confirm_loop_ends [] items count h t = absurd (omega arith)
confirm_loop_ends (r ∷ rs) items count h t =
    let b = timed_out r.choice (confirm_choice items r.choice r.asked) in
    ground (arith, confirm_loop_ends rs items (if b then count + 1 else count))

-- It returns at the latest when two rounds have timed out.
pub menu_with_confirm_ends :
    (items : ℕ) (rs : List Round) → 2 ≤ timeouts items rs → menu_with_confirm items rs ≢ none
unfolding menu_with_confirm
menu_with_confirm_ends items rs t = confirm_loop_ends rs items 0 (omega arith) (omega arith)
