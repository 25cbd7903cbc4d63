-- ===== src/Cfa/Retry/Laws.antt =====
-- `sendPktRetry` gives up after six unanswered rounds and otherwise returns the first answer.
use mathlib.Core.Path.{ap₂}
use gprovision.Cfa.Command.{command_from_response}
use gprovision.Cfa.Errors.{e_retry}
use gprovision.Cfa.Packet.{Packet}
use gprovision.Cfa.Retry.{
  Arrival, Link, Silent, arrived, get_pkt, send_loop, send_pkt_retry, silent_for,
}
use gprovision.Prelude.{
  All, List, [], arith, map, none, some, suc, zero, ℕ, ◌++◌, ◌+◌, ◌-◌, ◌<◌, ◌∙◌, ◌∷◌, ◌≡◌, ◌≢◌, ◌⊎◌,
}

module _ {W : Type 0} (link : Link W) where
  send_loop_silent :
      (left tried : ℕ) (w : W)
      → (link.send_pkt w).1 ≡ none
      → (link.send_pkt w).2 ≡ none
      → send_loop link (suc left) tried w
        ≡ send_loop link left (tried + 1) (link.ping (link.send_pkt w).0)
  unfolding send_loop
  send_loop_silent left tried w p e = ground arith

  send_loop_answer :
      (left tried : ℕ) (w : W)
      → ((link.send_pkt w).1 ≢ none) ⊎ ((link.send_pkt w).2 ≢ none)
      → let (w', p, e) = link.send_pkt w in
        send_loop link (suc left) tried w
        ≡ record { world = w'; packet = p; error = e; tries = tried + 1 }
  unfolding send_loop
  send_loop_answer left tried w h = ground arith

  send_loop-Silent :
      (n left total tried k : ℕ) (w : W)
      → total ≡ n + left
      → k ≡ tried + n
      → Silent link n w
      → send_loop link total tried w ≡ send_loop link left k (silent_for link n w)
  send_loop-Silent zero left total tried k w et ek q =
      ap₂ (λ t n. send_loop link t n w) (omega arith) (omega arith)
  send_loop-Silent (suc n) left zero tried k w et ek q = absurd (omega arith)
  send_loop-Silent (suc n) left (suc total) tried k w et ek (p, e, q) =
      send_loop_silent total tried w p e
      ∙ send_loop-Silent n left total (tried + 1) k (link.ping (link.send_pkt w).0) (omega arith)
          (omega arith) q

  -- After six rounds with neither a packet nor an error, ERetry is returned and nothing more is sent.
  pub send_pkt_retry-gives_up :
      (w : W)
      → Silent link 6 w
      → send_pkt_retry link w
        ≡ record { world = silent_for link 6 w; packet = none; error = some e_retry; tries = 6 }
  unfolding send_pkt_retry send_loop
  send_pkt_retry-gives_up w q = send_loop-Silent 6 0 6 0 6 w (omega arith) (omega arith) q

  -- The first answer, a packet or an error, in round n + 1 of at most six is returned as it is,
  -- and no round follows.
  pub send_pkt_retry-first_answer :
      (n : ℕ) (w : W)
      → n < 6
      → Silent link n w
      → (let s = link.send_pkt (silent_for link n w) in (s.1 ≢ none) ⊎ (s.2 ≢ none))
      → let s = link.send_pkt (silent_for link n w) in
        send_pkt_retry link w ≡ record { world = s.0; packet = s.1; error = s.2; tries = n + 1 }
  unfolding send_pkt_retry
  send_pkt_retry-first_answer n w lt q h =
      send_loop-Silent n (suc (5 - n)) 6 0 n w (omega arith) (omega arith) q
      ∙ send_loop_answer (5 - n) n (silent_for link n w) h

-- `getPkt` returns the first packet that answers the command, after any number of others.
pub get_pkt-first :
    (cmd : ℕ) (before : List Packet) (p : Packet) (rest : List Arrival)
    → All (λ q. command_from_response q.no_crc.command ≢ cmd) before
    → command_from_response p.no_crc.command ≡ cmd
    → get_pkt cmd (map arrived before ++ arrived p ∷ rest) ≡ some (some p)
unfolding get_pkt
get_pkt-first cmd [] p rest h e = ground arith
get_pkt-first cmd (q ∷ qs) p rest (h, hs) e = ground (arith, get_pkt-first cmd qs p rest hs e)
