-- ===== src/Log/Stack/Replay.antt =====
-- A logger added late has what it would have had from the start.
use gprovision.Log.Entries.{
  Kind, LogEntry, Logger, accepts, console_log, deliver, file_log, ident, lcd_log, mem_log,
}
use gprovision.Log.Entries.Delivery.{
  accepted, add_accepted, add_entries, add_entries_lem, deliver-accepted, with_out,
}
use gprovision.Log.Stack.{
  add_logger, add_previous_events, find_in_stack, forward_from, in_stack, replay, same_ident,
}
use gprovision.Log.Stack.Unique.{chain-free, forward_from_iff}
use gprovision.Prelude.{
  Bool-cases, List, [], append-nil, arith, false, inl, inr, none, refl, some, true, ◌++◌, ◌∙◌, ◌∷◌,
  ◌≡◌,
}

replay_lem :
    (new : Logger) (es : List LogEntry) → replay new es ≡ with_out new (new.out ++ accepted new es)
unfolding replay accepted
replay_lem new [] = rw (append-nil new.out)
replay_lem new (e ∷ es) = replay_lem (deliver e new) es ∙ deliver-accepted new e es

accepted-mem_log : (l : Logger) (es : List LogEntry) → l.kind ≡ mem_log → accepted l es ≡ es
unfolding accepted accepts
accepted-mem_log l [] h = refl
accepted-mem_log l (e ∷ es) h = rw (h, accepted-mem_log l es h)

abbrev grown : List LogEntry → Logger → Logger
grown es l = with_out l (l.out ++ accepted l es)

find_in_stack-add_accepted :
    (k : Kind) (st : List Logger) (es : List LogEntry)
    → find_in_stack k (add_accepted st es)
      ≡ elim (find_in_stack k st) [ none ↦ none | some l ↦ some (grown es l) ]
unfolding find_in_stack add_accepted
find_in_stack-add_accepted k [] es = refl
find_in_stack-add_accepted k (l ∷ ls) es = elim (Bool-cases (same_ident k l)) [
  | inl t ↦ rw t
  | inr b ↦ rw (b, find_in_stack-add_accepted k ls es)
]

forward_from-add_accepted :
    (new new' : Logger) (st : List Logger) (es : List LogEntry)
    → new'.kind ≡ new.kind
    → forward_from new st ≡ none
    → forward_from new' (add_accepted st es) ≡ none
unfolding forward_from add_accepted
forward_from-add_accepted new new' [] es same h = refl
forward_from-add_accepted new new' (l ∷ ls) es same h = elim (Bool-cases (same_ident l.kind new)) [
  | inl t ↦ ground arith
  | inr b ↦ rw (same, b) (forward_from-add_accepted new new' ls es same (ground arith))
]

mem_log_lem : (l : Logger) → same_ident mem_log l ≡ true → l.kind ≡ mem_log
unfolding ident
mem_log_lem l h = go l.kind (ground arith)
  where
    go : (k : Kind) → ident k ≡ 0 → k ≡ mem_log
    go mem_log e = refl
    go console_log e = ground arith
    go file_log e = ground arith
    go lcd_log e = ground arith

find_in_stack-ident :
    (k : Kind) (st : List Logger) {l : Logger} → find_in_stack k st ≡ some l → same_ident k l ≡ true
unfolding find_in_stack
find_in_stack-ident k [] h = ground arith
find_in_stack-ident k (m ∷ ls) {l} h = ground (arith, find_in_stack-ident k ls {l = l})

-- `addPreviousEvents` hands the new logger all that the memLog has, if the memLog was there first
-- and empty.
add_previous_events_lem :
    (new mem : Logger) (st : List Logger) (es : List LogEntry)
    → same_ident mem_log new ≡ false
    → find_in_stack mem_log st ≡ some mem
    → mem.out ≡ []
    → add_previous_events new (add_accepted st es) ≡ grown es new
unfolding add_previous_events
add_previous_events_lem new mem st es apart found empty =
    let is_mem = mem_log_lem mem (find_in_stack-ident mem_log st found) in
    let now : find_in_stack mem_log (add_accepted st es) ≡ some (grown es mem) =
      find_in_stack-add_accepted mem_log st es ∙ rw found in
    let kept : (grown es mem).out ≡ es = rw (accepted-mem_log mem es is_mem, empty) in
    rw (add_previous_events, apart, now, kept) (replay_lem new es)

in_stack_apart :
    (new mem : Logger) (st : List Logger)
    → in_stack new.kind st ≡ false
    → find_in_stack mem_log st ≡ some mem
    → same_ident mem_log new ≡ false
unfolding in_stack
in_stack_apart new mem st absent found = elim (Bool-cases (same_ident mem_log new)) [
  | inl t ↦
      let is_mem = mem_log_lem new t in
      let dup : in_stack new.kind st ≡ true = rw (is_mem, in_stack, found) in ground (arith, dup)
  | inr b ↦ b
]

-- With a stack that has a memLog without entries, a logger of a kind that is not in the stack can
-- be added after any entries: the stack is then as if it had been added before them.
pub add_logger-replay :
    (new mem : Logger) (st : List Logger) (es : List LogEntry)
    → find_in_stack mem_log st ≡ some mem
    → mem.out ≡ []
    → in_stack new.kind st ≡ false
    → add_logger new true (add_entries st es) ≡ (none, add_entries (new ∷ st) es)
unfolding add_logger add_accepted
add_logger-replay new mem st es found empty absent =
    let free = (forward_from_iff new st).1 absent in
    let filled =
      add_previous_events_lem new mem st es (in_stack_apart new mem st absent found) found empty in
    let chained =
      chain-free (grown es new) (add_accepted st es)
        (forward_from-add_accepted new (grown es new) st es refl free) in
    rw (add_entries_lem st es, filled, chained, add_entries_lem (new ∷ st) es)
