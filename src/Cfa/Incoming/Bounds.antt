-- ===== src/Cfa/Incoming/Bounds.antt =====
-- The channels never hold more than their capacity, and keep what they hold.
use gprovision.Cfa.Buttons.{keymask_to_activity}
use gprovision.Cfa.Incoming.{
  SerialDev, Step, blocked, byte_at, events_cap, handle, in_cap, next, send_all,
}
use gprovision.Cfa.Packet.{Packet}
use gprovision.Prelude.{
  Bool-cases, List, [], arith, inl, inr, leb, length, length-append, ℕ, ◌++◌, ◌<◌, ◌∷◌, ◌≡◌, ◌≤◌,
}

pub record IsBounded (sd : SerialDev) : Type 0 where
  pub events_fit : length sd.events ≤ events_cap
  pub in_fits : length sd.in_queue ≤ in_cap

-- A blocked sender waits on a full channel with something to send.
abbrev pub StepIsBounded : Step → Type 0
StepIsBounded (next sd) = IsBounded sd
StepIsBounded (blocked sd ks) = IsBounded sd × (length sd.events ≡ events_cap) × (0 < length ks)

push_event-IsBounded :
    (sd : SerialDev) (k : ℕ)
    → IsBounded sd
    → length sd.events < events_cap
    → IsBounded (record sd { events = sd.events ++ k ∷ [] })
push_event-IsBounded sd k b room = record {
  events_fit = omega (arith, length-append sd.events (k ∷ []));
  in_fits = b.in_fits;
}

send_all-IsBounded : (ks : List ℕ) (sd : SerialDev) → IsBounded sd → StepIsBounded (send_all sd ks)
unfolding send_all
send_all-IsBounded [] sd b = b
send_all-IsBounded (k ∷ ks) sd b = elim (Bool-cases (leb events_cap (length sd.events))) [
  | inl full ↦ rw full (b, ground (arith, b.events_fit), omega arith)
  | inr room ↦ rw room (
      send_all-IsBounded ks (record sd { events = sd.events ++ k ∷ [] })
        (push_event-IsBounded sd k b (ground arith)))
]

-- Whatever arrives, the channels stay within their capacities; the reader blocks only with the
-- event channel full.
handle-IsBounded : (sd : SerialDev) (p : Packet) → IsBounded sd → StepIsBounded (handle sd p)
unfolding handle
handle-IsBounded sd p b = ground (
  arith,
  send_all-IsBounded (keymask_to_activity sd.xlate_table (byte_at p.no_crc.array 2)) sd b,
  push_event-IsBounded sd (byte_at p.no_crc.array 0) b,
  length-append sd.in_queue (p ∷ []),
)
