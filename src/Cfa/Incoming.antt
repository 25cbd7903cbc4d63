-- ===== src/Cfa/Incoming.antt =====
-- pkg/hw/cfa/serial.go, `handleIncoming`: where an incoming packet goes. Channels are queues of
-- bounded length; `blocked` is a send on a full channel.
pub mod Bounds
use gprovision.Cfa.Buttons.{KeyXlate, keymask_to_activity}
use gprovision.Cfa.Command.{command_from_response, report_key}
use gprovision.Cfa.Packet.{Packet}
use gprovision.Prelude.{
  Bytes, List, [], get_elem?, if◌then◌else◌, leb, length, none, not, some, ℕ, ◌&&◌, ◌++◌, ◌==◌, ◌∷◌,
}
use gprovision.Cfa.Cmd

pub record SerialDev : Type 0 where
  pub events : List ℕ
  pub in_queue : List Packet
  pub xlate_table : List KeyXlate

-- The capacities that SerialSetup gives the channels.
abbrev pub events_cap : ℕ
events_cap = 10

abbrev pub in_cap : ℕ
in_cap = 5

pub data Step : Type 0 where
  next : SerialDev → Step
  blocked : SerialDev → List ℕ → Step

abbrev push_event : SerialDev → ℕ → SerialDev
push_event sd k = record sd { events = sd.events ++ k ∷ [] }

-- `for _, ka := range ... { sd.Events <- ka }`: no test of the capacity here.
unfoldable pub send_all : SerialDev → List ℕ → Step
send_all sd [] = next sd
send_all sd (k ∷ ks) =
    let rest = send_all (push_event sd k) ks in
    if leb events_cap (length sd.events) then blocked sd (k ∷ ks) else rest

abbrev pub byte_at : Bytes → ℕ → ℕ
byte_at bs i = elim (get_elem? bs i) [ some b ↦ b | none ↦ 0 ]

-- p.data[0] of a key report.
on_report : SerialDev → Packet → Step
on_report sd p =
    if leb events_cap (length sd.events)
    then next sd
    else next (push_event sd (byte_at p.no_crc.array 0))

-- The third byte, KeyPollReleased, is the mask of released keys.
on_poll : SerialDev → Packet → Step
on_poll sd p =
    if not (p.no_crc.data_length == 3)
    then next sd
    else if length sd.xlate_table == 0
    then next sd
    else send_all sd (keymask_to_activity sd.xlate_table (byte_at p.no_crc.array 2))

on_other : SerialDev → Packet → Step
on_other sd p =
    if leb in_cap (length sd.in_queue)
    then next sd
    else next (record sd { in_queue = sd.in_queue ++ p ∷ [] })

unfoldable pub handle : SerialDev → Packet → Step
unfolding on_report on_poll on_other
handle sd p =
    let cmd = p.no_crc.command in
    if cmd == report_key && p.no_crc.data_length == 1
    then on_report sd p
    else if command_from_response cmd == Cmd.read_keys_polled
    then on_poll sd p
    else on_other sd p
