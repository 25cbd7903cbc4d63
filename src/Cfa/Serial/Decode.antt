-- ===== src/Cfa/Serial/Decode.antt =====
-- `GetPacket` reads back what `WriteTo` wrote, and returns nothing else.
use gprovision.Cfa.Errors.{Error, e_packet, ok}
use gprovision.Cfa.Packet.{
  IsPacket, Packet, PktNoCrc, be16, cf_crc, crc_of, max_data_length, validate, zero_pkt,
}
use gprovision.Cfa.Packet.Bounds.{cf_crc-lt, wire}
use gprovision.Cfa.Serial.{
  Port, accepted, assembled, failed, get_packet, packet, read_body, read_crc, read_data, read_from,
}
use gprovision.Prelude.{
  Bytes, Option, [], append_assoc, arith, drop, drop-append, if◌then◌else◌, length, length-append,
  length-take, none, refl, take, take-append, true, ℕ, ◌++◌, ◌∷◌, ◌≡◌, ◌≤◌,
}

-- The packet that arrives: the array beyond the data is zero.
abbrev pub received : PktNoCrc → Packet
received p =
    let bs = take p.data_length p.array in
    record {
      no_crc = assembled p.command p.data_length bs;
      crc = cf_crc (p.command ∷ p.data_length ∷ bs);
    }

abbrev pub port_of : Bytes → Option Error → Port
port_of bs f = record { pending = bs; fault = f }

read_from-append :
    (xs ys : Bytes) (f : Option Error) (n : ℕ)
    → length xs ≡ n
    → read_from (port_of (xs ++ ys) f) n ≡ record { bytes = xs; error = none; port = port_of ys f }
unfolding read_from
read_from-append xs ys f n e =
    rw (← e) (ground (arith, take-append xs ys, drop-append xs ys, length-append xs ys))

pub crc_of-assembled :
    (cmd len : ℕ) (bs : Bytes)
    → length bs ≡ len
    → len ≤ max_data_length
    → crc_of (assembled cmd len bs) ≡ ok (cf_crc (cmd ∷ len ∷ bs), cmd ∷ len ∷ bs)
unfolding crc_of
crc_of-assembled cmd len bs e h = rw (← e) (
    ground (
      arith,
      take-append bs (drop (length bs) zero_pkt.array),
      length-append bs (drop (length bs) zero_pkt.array),
    ))

length-data : (p : PktNoCrc) → IsPacket p → length (take p.data_length p.array) ≡ p.data_length
length-data p v = omega (arith, length-take p.data_length p.array, v.size, v.short)

read_crc-append :
    (cmd len : ℕ) (bs rest : Bytes) (f : Option Error)
    → length bs ≡ len
    → len ≤ max_data_length
    → let crc = cf_crc (cmd ∷ len ∷ bs) in
      read_crc cmd len bs (port_of (be16 crc ++ rest) f)
      ≡ packet (record { no_crc = assembled cmd len bs; crc = crc }) (port_of rest f)
unfolding read_crc validate
read_crc-append cmd len bs rest f e h = ground (
  arith,
  read_from-append (be16 (cf_crc (cmd ∷ len ∷ bs))) rest f 2 refl,
  crc_of-assembled cmd len bs e h,
  cf_crc-lt (cmd ∷ len ∷ bs),
)

read_data-append :
    (cmd len : ℕ) (bs rest : Bytes) (f : Option Error)
    → length bs ≡ len
    → len ≤ max_data_length
    → let crc = cf_crc (cmd ∷ len ∷ bs) in
      read_data cmd len (port_of (bs ++ (be16 crc ++ rest)) f)
      ≡ packet (record { no_crc = assembled cmd len bs; crc = crc }) (port_of rest f)
unfolding read_data
read_data-append cmd len [] rest f e h =
    rw (← e) (read_crc-append cmd 0 [] rest f refl (omega arith))
read_data-append cmd len (b ∷ bs) rest f e h = ground (
  arith,
  read_from-append (b ∷ bs) (be16 (cf_crc (cmd ∷ len ∷ b ∷ bs)) ++ rest) f len e,
  read_crc-append cmd len (b ∷ bs) rest f e h,
)

get_packet-head :
    (cmd len : ℕ) (rest : Bytes) (f : Option Error)
    → get_packet (port_of (cmd ∷ len ∷ rest) f) ≡ (
        if accepted cmd then read_data cmd len (port_of rest f) else failed e_packet (port_of [] f))
unfolding get_packet read_body
get_packet-head cmd len rest f = ground (arith, read_from-append (cmd ∷ len ∷ []) rest f 2 refl)

-- A packet of a type that the driver handles is read back from the wire, whatever follows it, with
-- its data and CRC; the port stands behind it.
pub get_packet-wire :
    (p : PktNoCrc) (rest : Bytes) (f : Option Error)
    → IsPacket p
    → accepted p.command ≡ true
    → get_packet (port_of (wire p ++ rest) f) ≡ packet (received p) (port_of rest f)
get_packet-wire p rest f v a =
    rw (append_assoc, get_packet-head, a)
      (read_data-append p.command p.data_length (take p.data_length p.array) rest f
        (length-data p v) v.short)
