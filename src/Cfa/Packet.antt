-- ===== src/Cfa/Packet.antt =====
-- pkg/hw/cfa/packet.go: packets and their CRC. The [22]byte array is a list of that length
-- (`IsPacket`); what Go computes in `uint16` is cut to 16 bits.
pub mod Bounds
use gprovision.Cfa.Errors.{Result, command_range, data_oversized, err, ok, short_buffer, ◌>>=◌}
use gprovision.Prelude.{
  All, Bool, Bytes, IsByte, Option, [], bit_and, bit_or, bit_xor, drop, false, if◌then◌else◌, leb,
  length, ltb, none, not, replicate, some, suc, take, u16, zero, ℕ, ◌%◌, ◌*◌, ◌++◌, ◌+◌, ◌/◌, ◌==◌,
  ◌∷◌, ◌≡◌, ◌≤◌,
}

abbrev pub max_data_length : ℕ
max_data_length = 22

pub record PktNoCrc : Type 0 where
  pub command : ℕ
  pub data_length : ℕ
  pub array : Bytes  -- `data`

pub record Packet : Type 0 where
  pub no_crc : PktNoCrc
  pub crc : ℕ

-- The zero value, `&pktNoCrc{}`.
abbrev pub zero_pkt : PktNoCrc
zero_pkt = record { command = 0; data_length = 0; array = replicate max_data_length 0 }

-- What the Go types guarantee, and the length that all code here keeps.
pub record IsPacket (p : PktNoCrc) : Type 0 where
  pub command_byte : IsByte p.command
  pub short : p.data_length ≤ max_data_length
  pub size : length p.array ≡ max_data_length
  pub bytes : All IsByte p.array

unfoldable pub set_command : PktNoCrc → ℕ → Result PktNoCrc
set_command p cmd =
    if not (bit_and cmd 0xC0 == 0) then err command_range else ok (record p { command = cmd })

-- `copy` overwrites the front of the array.
unfoldable pub set_data : PktNoCrc → Bytes → Result PktNoCrc
set_data p bs =
    let l = length bs in
    if ltb max_data_length l
    then err data_oversized
    else ok (record p { data_length = l; array = bs ++ drop l p.array })

-- `Data`: the slice expression panics past the array, which is `none`.
unfoldable pub data_of : PktNoCrc → Option Bytes
data_of p = if leb p.data_length max_data_length then some (take p.data_length p.array) else none

-- One round of the inner loop of `CfCrc`, over (crc, b).
crc_bit : ℕ × ℕ → ℕ × ℕ
crc_bit (crc, b) =
    (if bit_and (bit_xor crc b) 0x01 == 1 then u16 (bit_xor (crc / 2) 0x8408) else crc / 2, b / 2)

crc_bits : ℕ → ℕ × ℕ → ℕ × ℕ
crc_bits zero s = s
crc_bits (suc n) s = crc_bits n (crc_bit s)

crc_bytes : ℕ → Bytes → ℕ
unfolding crc_bits crc_bit
crc_bytes crc [] = crc
crc_bytes crc (b ∷ bs) = crc_bytes (crc_bits 8 (crc, b)).0 bs

-- The complement, then the swap of the two bytes.
unfoldable pub cf_crc : Bytes → ℕ
unfolding crc_bytes
cf_crc bs =
    let crc = bit_xor (crc_bytes 0xffff bs) 0xffff in
    u16 (bit_or (bit_and (u16 (crc * 256)) 0xff00) (crc / 256))

-- `Crc`: the checksum and the buffer that it covers.
unfoldable pub crc_of : PktNoCrc → Result (ℕ × Bytes)
crc_of p =
    if ltb (length p.array) p.data_length
    then err short_buffer
    else let b = p.command ∷ p.data_length ∷ take p.data_length p.array in ok (cf_crc b, b)

-- `binary.Write` of a uint16, high byte first.
abbrev pub be16 : ℕ → Bytes
be16 v = v / 256 ∷ v % 256 ∷ []

-- `binary.BigEndian.Uint16`, of two bytes.
abbrev pub be16_value : Bytes → ℕ
be16_value (hi ∷ lo ∷ []) = hi * 256 + lo
be16_value _ = 0

-- `buf`, the bytes that `WriteTo` sends.
unfoldable pub buf : PktNoCrc → Result Bytes
buf p = do (crc, b) ← crc_of p; ok (b ++ be16 crc)

unfoldable pub validate : Packet → Bool
validate p = elim (crc_of p.no_crc) [ ok (crc, b) ↦ crc == p.crc | err e ↦ false ]
