-- ===== src/Tests/Loggers.antt =====
-- Log stacks at concrete inputs.
use gprovision.Log.Entries.{
  LogEntry, Logger, accepts, console_log, end_user, file_log, ident, lcd_log, mem_log, no_file,
}
use gprovision.Log.Entries.Delivery.{accepted, add_entries}
use gprovision.Log.Files.{LogState, add_named_file_log, filename, get_attr}
use gprovision.Log.Files.Failure.{add_named_file_log_iff}
use gprovision.Log.Stack.{add_logger, find_in_stack, in_stack, remove_logger, same_ident}
use gprovision.Log.Stack.Removal.{remove_logger_lem}
use gprovision.Log.Stack.Replay.{add_logger-replay}
use gprovision.Log.Stack.Unique.{IsStack, add_logger-IsStack}
use gprovision.Prelude.{[], codes, equal, false, none, refl, some, true, ◌↔◌, ◌∷◌, ◌≡◌}

abbrev mem : Logger
mem = record { kind = mem_log; opts = 0; file = no_file; out = [] }

abbrev console : Logger
console = record { kind = console_log; opts = end_user; file = no_file; out = [] }

abbrev lcd : Logger
lcd = record { kind = lcd_log; opts = end_user; file = no_file; out = [] }

abbrev to_user : LogEntry
to_user = record { flags = end_user; msg = codes "done" }

abbrev detail : LogEntry
detail = record { flags = 0; msg = codes "step" }

mem_found : find_in_stack mem_log (lcd ∷ mem ∷ []) ≡ some mem
unfolding find_in_stack ident
mem_found = refl

console_absent : in_stack console_log (lcd ∷ mem ∷ []) ≡ false
unfolding in_stack find_in_stack ident
console_absent = refl

add_logger-replay_example :
    add_logger console true (add_entries (lcd ∷ mem ∷ []) (to_user ∷ detail ∷ []))
    ≡ (none, add_entries (console ∷ lcd ∷ mem ∷ []) (to_user ∷ detail ∷ []))
add_logger-replay_example =
    add_logger-replay console mem (lcd ∷ mem ∷ []) (to_user ∷ detail ∷ []) mem_found refl
      console_absent

user_sees : accepted console (to_user ∷ detail ∷ []) ≡ to_user ∷ []
unfolding accepted accepts
user_sees = refl

lcd_over_mem : IsStack (lcd ∷ mem ∷ [])
unfolding IsStack in_stack find_in_stack ident
lcd_over_mem = (refl, (refl, tt))

add_logger-IsStack_example :
    IsStack (add_logger console true (lcd ∷ mem ∷ [])).1
    × (((add_logger console true (lcd ∷ mem ∷ [])).0 ≡ none)
        ↔ (in_stack console_log (lcd ∷ mem ∷ []) ≡ false))
    × (in_stack console_log (lcd ∷ mem ∷ []) ≡ true
        → (add_logger console true (lcd ∷ mem ∷ [])).1 ≡ lcd ∷ mem ∷ [])
add_logger-IsStack_example = add_logger-IsStack console true (lcd ∷ mem ∷ []) lcd_over_mem

lcd_alone : in_stack console_log (lcd ∷ []) ≡ false
unfolding in_stack find_in_stack ident
lcd_alone = refl

console_here : same_ident console_log console ≡ true
unfolding ident
console_here = refl

-- The console logger between two others.
remove_logger_lem_example : remove_logger console_log (lcd ∷ console ∷ mem ∷ []) ≡ none
remove_logger_lem_example =
    remove_logger_lem console_log (lcd ∷ []) (mem ∷ []) console lcd_alone console_here

abbrev named : LogState
named = record { stack = mem ∷ []; attrs = (filename, codes "a.log") ∷ [] }

file_absent : in_stack file_log named.stack ≡ false
unfolding in_stack find_in_stack ident
file_absent = refl

name_set : get_attr filename named.attrs ≡ some (codes "a.log")
unfolding get_attr equal
name_set = refl

add_named_file_log_iff_example : ((add_named_file_log true (codes "b.log") named).0 ≡ none) ↔ (
    (true ≡ true)
    × (in_stack file_log named.stack ≡ false)
    × (get_attr filename named.attrs ≡ none))
add_named_file_log_iff_example = add_named_file_log_iff true (codes "b.log") named
