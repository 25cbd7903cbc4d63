-- ===== src/Log/Files/Failure.antt =====
-- `AddNamedFileLog` on its branches, and the logger that its last error leaves behind.
use gprovision.Log.Entries.{Logger, file_log, ident}
use gprovision.Log.Files.{
  LogState, add_named_file_log, attr_exists, close_top, filename, get_attr, name_file, new_file_log,
  set_attr,
}
use gprovision.Log.Stack.{add_previous_events, find_in_stack, in_stack}
use gprovision.Log.Stack.Unique.{add_logger_duplicate, add_logger_fresh, add_previous_events-kind}
use gprovision.Prelude.{
  Bool, Bool-cases, Bytes, List, Option-cases, arith, false, inl, inr, none, refl, some, true, ◌↔◌,
  ◌∷◌, ◌≡◌,
}

-- `AddNamedFileLog` succeeds exactly if the file is created, no file log is in the stack and no
-- file name was set since the stack was made.
pub add_named_file_log_iff :
    (created : Bool) (fname : Bytes) (s : LogState)
    → ((add_named_file_log created fname s).0 ≡ none) ↔ (
        (created ≡ true) × (in_stack file_log s.stack ≡ false) × (get_attr filename s.attrs ≡ none))
unfolding add_named_file_log name_file set_attr
add_named_file_log_iff false fname s = ground arith
add_named_file_log_iff true fname s = elim (Bool-cases (in_stack file_log s.stack)) [
  | inl t ↦
      let (k, refused) = add_logger_duplicate new_file_log s.stack t in ground (arith, refused)
  | inr f ↦
      let added = add_logger_fresh new_file_log s.stack f in
      ground (arith, added, Option-cases (get_attr filename s.attrs))
]

name_file_taken :
    (fname old : Bytes) (st : List Logger) (attrs : List (Bytes × Bytes))
    → get_attr filename attrs ≡ some old
    → name_file fname (none, st) attrs
      ≡ (some attr_exists, record { stack = close_top st; attrs = attrs })
unfolding name_file set_attr
name_file_taken fname old st attrs taken = ground (arith, taken)

in_stack-close_top :
    (l : Logger) (st : List Logger)
    → l.kind ≡ file_log
    → in_stack file_log (close_top (l ∷ st)) ≡ true
unfolding close_top in_stack find_in_stack ident
in_stack-close_top l st h = ground (arith, h)

-- If a file log was removed from the stack, so that none is in it but the file name is still set,
-- `AddNamedFileLog` returns an error and yet leaves a file log, its own, in the stack.
add_named_file_log_stays :
    (fname old : Bytes) (s : LogState)
    → in_stack file_log s.stack ≡ false
    → get_attr filename s.attrs ≡ some old
    → ((add_named_file_log true fname s).0 ≡ some attr_exists)
      × (in_stack file_log (add_named_file_log true fname s).1.stack ≡ true)
unfolding add_named_file_log
add_named_file_log_stays fname old s absent taken =
    let top = add_previous_events new_file_log s.stack in
    rw
      (
        add_logger_fresh new_file_log s.stack absent,
        name_file_taken fname old (top ∷ s.stack) s.attrs taken,
      )
      (refl, in_stack-close_top top s.stack (add_previous_events-kind new_file_log s.stack))
