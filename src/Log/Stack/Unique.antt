-- ===== src/Log/Stack/Unique.antt =====
-- No two loggers of a stack are of one kind.
use mathlib.Core.Path.{subst}
use gprovision.Log.Entries.{Kind, LogEntry, Logger, deliver, mem_log}
use gprovision.Log.Stack.{
  add_logger, add_previous_events, chain, find_in_stack, forward_from, in_stack, replay, same_ident,
}
use gprovision.Prelude.{
  Bool, Bool-cases, List, Option-cases, [], arith, false, inl, inr, none, refl, some, true, ◌||◌,
  ◌↔◌, ◌∙◌, ◌∷◌, ◌≡◌,
}

-- The idents of a stack are all different.
unfoldable pub IsStack : List Logger → Type 0
IsStack [] = Unit
IsStack (l ∷ ls) = (in_stack l.kind ls ≡ false) × IsStack ls

replay-kind : (new : Logger) (es : List LogEntry) → (replay new es).kind ≡ new.kind
unfolding replay deliver
replay-kind new [] = refl
replay-kind new (e ∷ es) = replay-kind (deliver e new) es ∙ ground arith

pub add_previous_events-kind :
    (new : Logger) (st : List Logger) → (add_previous_events new st).kind ≡ new.kind
unfolding add_previous_events
add_previous_events-kind new st = elim (Bool-cases (same_ident mem_log new)) [
  | inl t ↦ rw (t)
  | inr f ↦ elim (Option-cases (find_in_stack mem_log st)) [
    | inl absent ↦ rw (f, absent)
    | inr (mem, found) ↦ rw (f, found, replay-kind new mem.out)
  ]
]

in_stack-nil : (k : Kind) → in_stack k [] ≡ false
unfolding in_stack find_in_stack
in_stack-nil k = refl

pub in_stack-cons :
    (k : Kind) (l : Logger) (ls : List Logger)
    → in_stack k (l ∷ ls) ≡ same_ident k l || in_stack k ls
unfolding in_stack find_in_stack
in_stack-cons k l ls = ground arith

-- `ForwardFrom` accepts the new logger exactly if its ident is not in the stack.
pub forward_from_iff :
    (new : Logger) (st : List Logger)
    → (forward_from new st ≡ none) ↔ (in_stack new.kind st ≡ false)
unfolding forward_from
forward_from_iff new [] = (λ e. in_stack-nil new.kind, λ e. refl)
forward_from_iff new (l ∷ ls) = ground (arith, in_stack-cons new.kind l ls, forward_from_iff new ls)

pub chain-free :
    (new : Logger) (st : List Logger) → forward_from new st ≡ none → chain new st ≡ (none, new ∷ st)
unfolding chain
chain-free new st e = rw (chain, e)

chain-duplicate :
    (new : Logger) (st : List Logger) (k : Kind)
    → forward_from new st ≡ some k
    → chain new st ≡ (some k, st)
unfolding chain
chain-duplicate new st k e = rw (chain, e)

chain-IsStack :
    (new : Logger) (k : Kind) (st : List Logger)
    → IsStack st
    → new.kind ≡ k
    → IsStack (chain new st).1
      × (((chain new st).0 ≡ none) ↔ (in_stack k st ≡ false))
      × (in_stack k st ≡ true → (chain new st).1 ≡ st)
unfolding IsStack
chain-IsStack new k st h e =
    let (l_to_r, r_to_l) = forward_from_iff new st in
    elim (Option-cases (forward_from new st)) [
      | inl free ↦
          let gone : in_stack k st ≡ false = subst (λ k. in_stack k st ≡ false) e (l_to_r free) in
          rw (chain-free new st free) ((l_to_r free, h), (λ u. gone, λ u. refl), λ t. ground arith)
      | inr (dup, found) ↦ rw (chain-duplicate new st dup found) (h, ground arith, λ u. refl)
    ]

-- `AddLogger` keeps the idents of the stack different, and returns an error exactly if the ident is
-- in the stack already, which leaves the stack as it is.
pub add_logger-IsStack :
    (sl : Logger) (add_previous : Bool) (st : List Logger)
    → IsStack st
    → IsStack (add_logger sl add_previous st).1
      × (((add_logger sl add_previous st).0 ≡ none) ↔ (in_stack sl.kind st ≡ false))
      × (in_stack sl.kind st ≡ true → (add_logger sl add_previous st).1 ≡ st)
unfolding add_logger
add_logger-IsStack sl true st h =
    chain-IsStack (add_previous_events sl st) sl.kind st h (add_previous_events-kind sl st)
add_logger-IsStack sl false st h = chain-IsStack sl sl.kind st h refl

forward_from-previous :
    (sl : Logger) (st : List Logger)
    → (forward_from (add_previous_events sl st) st ≡ none) ↔ (in_stack sl.kind st ≡ false)
forward_from-previous sl st =
    subst (λ k. (forward_from (add_previous_events sl st) st ≡ none) ↔ (in_stack k st ≡ false))
      (add_previous_events-kind sl st) (forward_from_iff (add_previous_events sl st) st)

pub add_logger_fresh :
    (sl : Logger) (st : List Logger)
    → in_stack sl.kind st ≡ false
    → add_logger sl true st ≡ (none, add_previous_events sl st ∷ st)
unfolding add_logger
add_logger_fresh sl st absent =
    chain-free (add_previous_events sl st) st ((forward_from-previous sl st).1 absent)

pub add_logger_duplicate :
    (sl : Logger) (st : List Logger)
    → in_stack sl.kind st ≡ true
    → (k : Kind) × (add_logger sl true st ≡ (some k, st))
unfolding add_logger
add_logger_duplicate sl st present =
    let new = add_previous_events sl st in
    elim (Option-cases (forward_from new st)) [
      | inl free ↦
          let absent = (forward_from-previous sl st).0 free in ground (arith, present, absent)
      | inr (k, found) ↦ (k, chain-duplicate new st k found)
    ]
