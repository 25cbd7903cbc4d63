-- ===== src/Cfa/Retry.antt =====
-- pkg/hw/cfa/serial.go: `getPkt`, and `sendPktRetry` over a link that the environment drives.
pub mod Laws
use gprovision.Cfa.Command.{command_from_response}
use gprovision.Cfa.Errors.{Error, e_retry}
use gprovision.Cfa.Packet.{Packet}
use gprovision.Prelude.{
  List, Option, [], if◌then◌else◌, none, some, suc, zero, ℕ, ◌+◌, ◌==◌, ◌∷◌, ◌≡◌,
}

-- What `getPkt` sees next: a packet out of `In`, or the timer.
pub data Arrival : Type 0 where
  arrived : Packet → Arrival
  timeout : Arrival

-- Packets that answer another command are dropped. An exhausted list is a wait with no end.
unfoldable pub get_pkt : ℕ → List Arrival → Option (Option Packet)
get_pkt cmd [] = none
get_pkt cmd (timeout ∷ rest) = some none
get_pkt cmd (arrived p ∷ rest) =
    let answer = get_pkt cmd rest in
    if command_from_response p.no_crc.command == cmd then some (some p) else answer

-- `sendPkt` and `ping` act on the link; a reply may be a packet, an error, or neither.
pub record Link (W : Type 0) : Type 0 where
  pub send_pkt : W → W × Option Packet × Option Error
  pub ping : W → W

pub record Sent (W : Type 0) : Type 0 where
  pub world : W
  pub packet : Option Packet
  pub error : Option Error
  pub tries : ℕ  -- calls of `sendPkt`

abbrev pub max_tries : ℕ
max_tries = 5

module _ {W : Type 0} (link : Link W) where
  -- The loop, with the rounds that are left.
  pub send_loop : ℕ → ℕ → W → Sent W
  send_loop zero n w = record { world = w; packet = none; error = some e_retry; tries = n }
  send_loop (suc left) n w =
      let (w', p, e) = link.send_pkt w in
      let again = send_loop left (n + 1) (link.ping w') in
      let done : Sent W = record { world = w'; packet = p; error = e; tries = n + 1 } in
      elim p [ some q ↦ done | none ↦ elim e [ some x ↦ done | none ↦ again ] ]

  -- `for r := MaxTries; r >= 0; r--` makes one round more than MaxTries.
  unfoldable pub send_pkt_retry : W → Sent W
  unfolding send_loop
  send_pkt_retry w = send_loop (max_tries + 1) 0 w

  -- The link after `n` unanswered rounds.
  abbrev pub silent_for : ℕ → W → W
  silent_for zero w = w
  silent_for (suc n) w = silent_for n (link.ping (link.send_pkt w).0)

  -- The first `n` rounds bring neither a packet nor an error.
  abbrev pub Silent : ℕ → W → Type 0
  Silent zero w = Unit
  Silent (suc n) w =
      ((link.send_pkt w).1 ≡ none)
      × ((link.send_pkt w).2 ≡ none)
      × Silent n (link.ping (link.send_pkt w).0)
