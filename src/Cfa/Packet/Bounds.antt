-- ===== src/Cfa/Packet/Bounds.antt =====
-- Sizes and ranges of what packet.go builds.
use gprovision.Cfa.Errors.{command_range, data_oversized, err, ok}
use gprovision.Cfa.Packet.{
  IsPacket, PktNoCrc, be16, buf, cf_crc, crc_of, data_of, max_data_length, set_command, set_data,
}
use gprovision.Prelude.{
  All, All-append, All-drop, All-take, Bool, Bytes, IsByte, arith, bit_and, drop, holds_below,
  holds_below→holds, if◌then◌else◌, length, length-append, length-drop, length-take, ltb, not, refl,
  some, take, take-append, true, ℕ, ◌++◌, ◌+◌, ◌<◌, ◌==◌, ◌∷◌, ◌≡◌, ◌≤◌,
}

-- A CRC is a 16-bit number.
pub cf_crc-lt : (bs : Bytes) → cf_crc bs < 65536
unfolding cf_crc
cf_crc-lt bs = omega arith

type_bits_table : ℕ → Bool
type_bits_table c = if bit_and c 0xC0 == 0 then ltb c 64 else not (ltb c 64)

type_bits : (c : ℕ) → IsByte c → type_bits_table c ≡ true
unfolding holds_below type_bits_table
type_bits = holds_below→holds type_bits_table 256 refl

-- `SetCommand` accepts exactly the codes without type bits, and changes nothing else.
pub set_command_lem :
    (p : PktNoCrc) (c : ℕ)
    → IsByte c
    → set_command p c ≡ (if ltb c 64 then ok (record p { command = c }) else err command_range)
unfolding set_command type_bits_table
set_command_lem p c h = ground (arith, type_bits c h)

-- What `SetData` leaves: the same command, and exactly the given bytes as the packet's data.
pub record HoldsData (p q : PktNoCrc) (bs : Bytes) : Type 0 where
  pub valid : IsPacket q
  pub same_command : q.command ≡ p.command
  pub holds : data_of q ≡ some bs

-- `SetData` keeps packets well formed and stores the bytes it is given, up to 22 of them.
pub set_data-HoldsData :
    (p : PktNoCrc) (bs : Bytes)
    → IsPacket p
    → All IsByte bs
    → length bs ≤ max_data_length
    → (q : PktNoCrc) × (set_data p bs ≡ ok q) × HoldsData p q bs
unfolding set_data data_of
set_data-HoldsData p bs v hb short = (
  record p { data_length = length bs; array = bs ++ drop (length bs) p.array },
  ground arith,
  record {
    valid = record {
      command_byte = v.command_byte;
      short = short;
      size = rw length-append (omega (arith, length-drop (length bs) p.array, v.size));
      bytes = All-append IsByte bs _ hb (All-drop IsByte (length bs) p.array v.bytes);
    };
    same_command = refl;
    holds = ground (arith, take-append bs (drop (length bs) p.array));
  },
)

-- Longer data is refused.
pub set_data_oversized :
    (p : PktNoCrc) (bs : Bytes) → max_data_length < length bs → set_data p bs ≡ err data_oversized
unfolding set_data
set_data_oversized p bs h = ground arith

-- A packet on the wire: command, length, the data and the CRC over these, high byte first.
abbrev pub wire : PktNoCrc → Bytes
wire p = let b = p.command ∷ p.data_length ∷ take p.data_length p.array in b ++ be16 (cf_crc b)

pub buf-wire : (p : PktNoCrc) → IsPacket p → buf p ≡ ok (wire p)
unfolding buf crc_of
buf-wire p v = ground (arith, v.size, v.short)

-- The frame is four bytes longer than the data, so it fits the 26-byte buffer, and holds bytes.
pub wire_shape :
    (p : PktNoCrc)
    → IsPacket p
    → (length (wire p) ≡ p.data_length + 4) × (length (wire p) ≤ 26) × All IsByte (wire p)
wire_shape p v = (size, omega (arith, size, v.short), bytes)
  where
    b : Bytes
    b = p.command ∷ p.data_length ∷ take p.data_length p.array

    size : length (wire p) ≡ p.data_length + 4
    size = rw length-append (omega (arith, length-take p.data_length p.array, v.size, v.short))

    bytes : All IsByte (wire p)
    bytes =
        All-append IsByte b (be16 (cf_crc b))
          (v.command_byte, (omega (arith, v.short), All-take IsByte p.data_length p.array v.bytes))
          (omega (arith, cf_crc-lt b))
