-- ===== src/Tests/Link.antt =====
-- Packets, the serial port and retries at concrete inputs.
use gprovision.Cfa.Buttons.{keymask_to_activity, xlate_631}
use gprovision.Cfa.Command.{pkt_type}
use gprovision.Cfa.Incoming.{SerialDev}
use gprovision.Cfa.Packet.{IsPacket, PktNoCrc}
use gprovision.Cfa.Packet.Bounds.{wire, wire_shape}
use gprovision.Cfa.Retry.{Link, send_pkt_retry}
use gprovision.Cfa.Retry.Laws.{send_pkt_retry-first_answer}
use gprovision.Cfa.Serial.{accepted, get_packet, packet}
use gprovision.Cfa.Serial.Decode.{get_packet-wire, port_of, received}
use gprovision.Cfa.Serial.Sound.{WasRead, get_packet-WasRead}
use gprovision.Prelude.{
  All, All-replicate, IsByte, [], arith, if◌then◌else◌, inl, ltb, none, refl, replicate, some, true,
  ℕ, ◌++◌, ◌+◌, ◌∷◌, ◌≡◌,
}
use gprovision.Cfa.Key

-- The answer to a ping with two bytes of data.
abbrev pong : PktNoCrc
pong = record { command = 0x40; data_length = 2; array = 7 ∷ 9 ∷ replicate 20 0 }

pong-IsPacket : IsPacket pong
pong-IsPacket = record {
  command_byte = omega arith;
  short = omega arith;
  size = refl;
  bytes = bytes_below;
}
  where
    bytes_below : All IsByte pong.array
    bytes_below = (omega arith, (omega arith, All-replicate IsByte 20 0 (omega arith)))

pong_accepted : accepted pong.command ≡ true
unfolding accepted pkt_type
pong_accepted = refl

get_packet-wire_example :
    get_packet (port_of (wire pong ++ 1 ∷ 2 ∷ []) none)
    ≡ packet (received pong) (port_of (1 ∷ 2 ∷ []) none)
get_packet-wire_example = get_packet-wire pong (1 ∷ 2 ∷ []) none pong-IsPacket pong_accepted

get_packet-WasRead_example : WasRead (port_of (wire pong) none) (received pong) (port_of [] none)
get_packet-WasRead_example =
    get_packet-WasRead (port_of (wire pong) none) (wire_shape pong pong-IsPacket).2
      (get_packet-wire pong [] none pong-IsPacket pong_accepted)

-- A link that answers from the third `sendPkt` on; the world counts the pings.
abbrev third_time : Link ℕ
third_time = record {
  send_pkt = λ w. (w, (if ltb w 2 then none else some (received pong)), none);
  ping = λ w. w + 1;
}

send_pkt_retry-first_answer_example :
    send_pkt_retry third_time 0
    ≡ record { world = 2; packet = some (received pong); error = none; tries = 3 }
send_pkt_retry-first_answer_example =
    send_pkt_retry-first_answer third_time 2 0 (omega arith) (refl, refl, (refl, refl, tt))
      (inl (ground arith))

abbrev full : SerialDev
full = record { events = replicate 10 1; in_queue = []; xlate_table = xlate_631 }

two_keys : keymask_to_activity xlate_631 6 ≡ Key.ur_release ∷ Key.ll_release ∷ []
unfolding keymask_to_activity
two_keys = refl
