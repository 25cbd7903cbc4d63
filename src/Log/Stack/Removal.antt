-- ===== src/Log/Stack/Removal.antt =====
-- What `RemoveLogger` does to the stack.
use gprovision.Log.Entries.{Kind, Logger, finalize_one}
use gprovision.Log.Stack.{in_stack, remove_below, remove_logger, same_ident}
use gprovision.Log.Stack.Unique.{in_stack-cons}
use gprovision.Prelude.{List, Option, [], arith, false, none, refl, some, true, ◌++◌, ◌∷◌, ◌≡◌}

-- The stack after the removal of `l` from between `above` and `below`; `none` is a panic.
abbrev pub removed : List Logger → Logger → List Logger → Option (List Logger)
removed [] l below = some (finalize_one l ∷ [])
removed (a ∷ above) l [] = some (a ∷ above)
removed (a ∷ above) l (b ∷ below) = none

removed-cons :
    (prev a : Logger) (above below : List Logger) (l : Logger)
    → elim (removed (a ∷ above) l below) [ none ↦ none | some ls ↦ some (prev ∷ ls) ]
      ≡ removed (prev ∷ a ∷ above) l below
removed-cons prev a above [] l = refl
removed-cons prev a above (b ∷ below) l = refl

apart_cons :
    (k : Kind) (a : Logger) (above : List Logger)
    → in_stack k (a ∷ above) ≡ false
    → (same_ident k a ≡ false) × (in_stack k above ≡ false)
apart_cons k a above h = ground (arith, in_stack-cons k a above)

remove_below_lem :
    (k : Kind) (prev : Logger) (above below : List Logger) (l : Logger)
    → in_stack k above ≡ false
    → same_ident k l ≡ true
    → remove_below k prev (above ++ l ∷ below) ≡ removed (prev ∷ above) l below
unfolding remove_below
remove_below_lem k prev [] [] l absent same = rw same
remove_below_lem k prev [] (b ∷ below) l absent same = rw same
remove_below_lem k prev (a ∷ []) below l absent same =
    let (apart, _) = apart_cons k a [] absent in
    rw (apart, remove_below_lem k a [] below l (apart_cons k a [] absent).1 same)
      (removed-cons prev a [] below l)
remove_below_lem k prev (a ∷ c ∷ above) below l absent same =
    let (apart, rest) = apart_cons k a (c ∷ above) absent in
    rw (apart, remove_below_lem k a (c ∷ above) below l rest same)
      (removed-cons prev a (c ∷ above) below l)

-- `RemoveLogger` on each place where the logger can stand: at the bottom it is taken off the stack;
-- at the top it stays, finalized, and all below it are lost; between two others the call panics.
pub remove_logger_lem :
    (k : Kind) (above below : List Logger) (l : Logger)
    → in_stack k above ≡ false
    → same_ident k l ≡ true
    → remove_logger k (above ++ l ∷ below) ≡ removed above l below
unfolding remove_logger
remove_logger_lem k [] below l absent same = rw same
remove_logger_lem k (a ∷ above) below l absent same =
    let (apart, rest) = apart_cons k a above absent in
    rw apart (remove_below_lem k a above below l rest same)

remove_below_absent :
    (k : Kind) (prev : Logger) (st : List Logger)
    → in_stack k st ≡ false
    → remove_below k prev st ≡ some (prev ∷ st)
unfolding remove_below
remove_below_absent k prev [] h = refl
remove_below_absent k prev (l ∷ []) h = rw ((apart_cons k l [] h).0)
remove_below_absent k prev (l ∷ m ∷ ls) h =
    let (apart, rest) = apart_cons k l (m ∷ ls) h in
    rw (apart, remove_below_absent k l (m ∷ ls) rest)

-- `RemoveLogger` leaves a stack as it is if no logger has the ident.
pub remove_logger_absent :
    (k : Kind) (st : List Logger) → in_stack k st ≡ false → remove_logger k st ≡ some st
unfolding remove_logger
remove_logger_absent k [] h = refl
remove_logger_absent k (l ∷ ls) h =
    let (apart, rest) = apart_cons k l ls h in rw apart (remove_below_absent k l ls rest)
