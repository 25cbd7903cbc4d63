-- ===== src/Log/Entries/Delivery.antt =====
-- What the loggers have put out after a run of entries.
use mathlib.Core.Path.{ap₂}
use gprovision.Log.Entries.{LogEntry, Logger, accepts, add_entry, deliver}
use gprovision.Prelude.{
  Bool-cases, List, [], append-nil, append_assoc, if◌then◌else◌, inl, inr, refl, sym, ◌++◌, ◌∙◌,
  ◌∷◌, ◌≡◌,
}

-- Several entries in a row.
unfoldable pub add_entries : List Logger → List LogEntry → List Logger
add_entries st [] = st
add_entries st (e ∷ es) = add_entries (add_entry st e) es

-- The entries that a logger puts out.
unfoldable pub accepted : Logger → List LogEntry → List LogEntry
accepted l [] = []
accepted l (e ∷ es) = let rest = accepted l es in if accepts l e then e ∷ rest else rest

abbrev pub with_out : Logger → List LogEntry → Logger
with_out l es = record l { out = es }

unfoldable pub add_accepted : List Logger → List LogEntry → List Logger
add_accepted [] es = []
add_accepted (l ∷ ls) es = with_out l (l.out ++ accepted l es) ∷ add_accepted ls es

accepted-with_out :
    (l : Logger) (es es' : List LogEntry) → accepted (with_out l es') es ≡ accepted l es
unfolding accepted accepts
accepted-with_out l [] es' = refl
accepted-with_out l (e ∷ es) es' = rw (accepted-with_out l es es')

pub deliver-accepted :
    (l : Logger) (e : LogEntry) (es : List LogEntry)
    → with_out (deliver e l) ((deliver e l).out ++ accepted (deliver e l) es)
      ≡ with_out l (l.out ++ accepted l (e ∷ es))
unfolding deliver accepted
deliver-accepted l e es = elim (Bool-cases (accepts l e)) [
  | inl t ↦
      rw (t, accepted-with_out l es (l.out ++ e ∷ []), append_assoc l.out (e ∷ []) (accepted l es))
  | inr f ↦ rw f
]

add_accepted-add_entry :
    (st : List Logger) (e : LogEntry) (es : List LogEntry)
    → add_accepted (add_entry st e) es ≡ add_accepted st (e ∷ es)
unfolding add_accepted add_entry
add_accepted-add_entry [] e es = refl
add_accepted-add_entry (l ∷ ls) e es =
    ap₂ (λ x y. x ∷ y) (deliver-accepted l e es) (add_accepted-add_entry ls e es)

add_accepted-nil : (st : List Logger) → add_accepted st [] ≡ st
unfolding add_accepted accepted
add_accepted-nil [] = refl
add_accepted-nil (l ∷ ls) = rw (append-nil l.out, add_accepted-nil ls)

-- After any entries, every logger of the stack has put out, behind what it had, exactly those that
-- its own test accepts, in order; no logger changes otherwise.
pub add_entries_lem :
    (st : List Logger) (es : List LogEntry) → add_entries st es ≡ add_accepted st es
unfolding add_entries
add_entries_lem st [] = sym (add_accepted-nil st)
add_entries_lem st (e ∷ es) = add_entries_lem (add_entry st e) es ∙ add_accepted-add_entry st e es
