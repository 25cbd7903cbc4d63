-- ===== src/Log/Stack.antt =====
-- pkg/log/stackable.go, with `StoredEntries` and `FlushMemLog` of mem.go: loggers added to and
-- removed from the stack.
pub mod Unique
pub mod Replay
pub mod Removal
use gprovision.Log.Entries.{Kind, LogEntry, Logger, deliver, finalize_one, ident, mem_log}
use gprovision.Prelude.{Bool, List, Option, [], false, if◌then◌else◌, none, some, true, ◌==◌, ◌∷◌}

abbrev pub same_ident : Kind → Logger → Bool
same_ident k l = ident l.kind == ident k

-- `FindInStack`
unfoldable pub find_in_stack : Kind → List Logger → Option Logger
find_in_stack k [] = none
find_in_stack k (l ∷ ls) = let rest = find_in_stack k ls in if same_ident k l then some l else rest

-- `InStack`
unfoldable pub in_stack : Kind → List Logger → Bool
in_stack k st = elim (find_in_stack k st) [ none ↦ false | some l ↦ true ]

-- `ForwardFrom`: the duplicate's kind, if there is one.
unfoldable pub forward_from : Logger → List Logger → Option Kind
forward_from new [] = none
forward_from new (l ∷ ls) =
    let rest = forward_from new ls in if same_ident l.kind new then some l.kind else rest

-- The loop of `addPreviousEvents`: `AddEntry` of a logger that is not chained to another yet.
unfoldable pub replay : Logger → List LogEntry → Logger
replay new [] = new
replay new (e ∷ es) = replay (deliver e new) es

unfoldable pub add_previous_events : Logger → List Logger → Logger
add_previous_events new st =
    if same_ident mem_log new
    then new
    else elim (find_in_stack mem_log st) [ none ↦ new | some mem ↦ replay new mem.out ]

-- The end of `AddLogger`: the error and the new stack.
unfoldable pub chain : Logger → List Logger → Option Kind × List Logger
chain new st = elim (forward_from new st) [ some k ↦ (some k, st) | none ↦ (none, new ∷ st) ]

-- `AddLogger`, for a logger that is not chained to another yet.
unfoldable pub add_logger : Logger → Bool → List Logger → Option Kind × List Logger
add_logger sl add_previous st = chain (if add_previous then add_previous_events sl st else sl) st

-- The loop of `RemoveLogger` below a logger `prev` that stays: `none` is the panic of
-- `prev.ForwardTo(next)`, as `prev` still has its next logger.
unfoldable pub remove_below : Kind → Logger → List Logger → Option (List Logger)
remove_below k prev [] = some (prev ∷ [])
remove_below k prev (l ∷ []) = if same_ident k l then some (prev ∷ []) else some (prev ∷ l ∷ [])
remove_below k prev (l ∷ m ∷ ls) =
    let rest = remove_below k l (m ∷ ls) in
    if same_ident k l then none else elim rest [ none ↦ none | some ls ↦ some (prev ∷ ls) ]

-- `RemoveLogger`. The top logger is cut from those below it, and `logStack` still holds it.
unfoldable pub remove_logger : Kind → List Logger → Option (List Logger)
remove_logger k [] = some []
remove_logger k (l ∷ ls) =
    let rest = remove_below k l ls in if same_ident k l then some (finalize_one l ∷ []) else rest

-- `StoredEntries`
unfoldable pub stored_entries : List Logger → List LogEntry
stored_entries st = elim (find_in_stack mem_log st) [ none ↦ [] | some mem ↦ mem.out ]

-- `FlushMemLog`
unfoldable pub flush_mem_log : List Logger → Option (List Logger)
flush_mem_log st = remove_logger mem_log st
