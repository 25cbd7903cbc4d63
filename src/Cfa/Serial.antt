-- ===== src/Cfa/Serial.antt =====
-- pkg/hw/cfa/serial.go: packets out of a byte stream (`GetPacket`, `badPacket`).
-- The port is what it has still to deliver, and the error, if any, that it reports after that.
pub mod Decode
pub mod Sound
use gprovision.Cfa.Command.{cf_command, cf_error, cf_report, cf_response, pkt_type, report_key}
use gprovision.Cfa.Errors.{Error, e_packet, invalid, unexpected_eof}
use gprovision.Cfa.Packet.{Packet, PktNoCrc, be16_value, max_data_length, validate, zero_pkt}
use gprovision.Prelude.{
  Bool, Bytes, Option, [], drop, false, if◌then◌else◌, leb, length, ltb, none, some, take, true, ℕ,
  ◌++◌, ◌==◌, ◌∷◌,
}

pub record Port : Type 0 where
  pub pending : Bytes
  pub fault : Option Error

-- `buf.ReadFrom(io.LimitReader(r, n))`: the bytes, the error, and the port behind them. The end of
-- the stream is no error.
pub record Chunk : Type 0 where
  pub bytes : Bytes
  pub error : Option Error
  pub port : Port

unfoldable pub read_from : Port → ℕ → Chunk
read_from r n = record {
  bytes = take n r.pending;
  error = if leb n (length r.pending) then none else r.fault;
  port = record r { pending = drop n r.pending };
}

-- `Flush` throws away what has arrived.
abbrev pub flush : Port → Port
flush r = record r { pending = [] }

-- What `GetPacket` returns. Beside an error Go also returns the half-read packet, which every
-- caller drops.
pub data Got : Type 0 where
  packet : Packet → Port → Got
  failed : Error → Port → Got

bad_packet : Port → Got
bad_packet r = failed e_packet (flush r)

-- `err == nil && n != want` turns a short read into io.ErrUnexpectedEOF.
abbrev read_error : Chunk → ℕ → Option Error
read_error c want = elim c.error [
  | some e ↦ some e
  | none ↦ if length c.bytes == want then none else some unexpected_eof
]

-- The switch on the packet's type: is the packet one that is handled?
unfoldable pub accepted : ℕ → Bool
unfolding pkt_type
accepted cmd = elim (pkt_type cmd) [
  | cf_report ↦ cmd == report_key
  | cf_response ↦ true
  | cf_error ↦ false
  | cf_command ↦ false
]

-- The packet that is filled in: `copy` leaves the array zero beyond the data.
abbrev pub assembled : ℕ → ℕ → Bytes → PktNoCrc
assembled cmd len bs = record {
  command = cmd;
  data_length = len;
  array = bs ++ drop (length bs) zero_pkt.array;
}

-- From the CRC on: `seen` is what `buf` holds.
unfoldable pub read_crc : ℕ → ℕ → Bytes → Port → Got
read_crc cmd len bs r =
    let c = read_from r 2 in
    elim (read_error c 2) [
      | some e ↦ failed e c.port
      | none ↦
          let p : Packet = record { no_crc = assembled cmd len bs; crc = be16_value c.bytes } in
          if validate p then packet p c.port else failed invalid c.port
    ]

-- From the data on; no read is made for a packet without data.
unfoldable pub read_data : ℕ → ℕ → Port → Got
unfolding bad_packet
read_data cmd len r =
    if ltb max_data_length len
    then bad_packet r
    else if len == 0
    then read_crc cmd len [] r
    else let c = read_from r len in
      elim (read_error c len) [ some e ↦ failed e c.port | none ↦ read_crc cmd len c.bytes c.port ]

-- On the two bytes of the head.
unfoldable pub read_body : Bytes → Port → Got
unfolding bad_packet
read_body (cmd ∷ len ∷ []) r = if accepted cmd then read_data cmd len r else bad_packet r
read_body _ r = failed unexpected_eof r

unfoldable pub get_packet : Port → Got
get_packet r =
    let c = read_from r 2 in
    elim (read_error c 2) [ some e ↦ failed e c.port | none ↦ read_body c.bytes c.port ]
