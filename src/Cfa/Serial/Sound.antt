-- ===== src/Cfa/Serial/Sound.antt =====
-- Whatever `GetPacket` returns stood on the wire, with the right CRC and a type that is handled.
use mathlib.Core.Path.{ap₂}
use gprovision.Cfa.Packet.{Packet, be16, be16_value, cf_crc, max_data_length, validate, zero_pkt}
use gprovision.Cfa.Packet.Bounds.{wire}
use gprovision.Cfa.Serial.{
  Port, accepted, assembled, get_packet, packet, read_body, read_crc, read_data, read_from,
}
use gprovision.Cfa.Serial.Decode.{crc_of-assembled}
use gprovision.Prelude.{
  All, All-drop, All-take, Bool-cases, Bytes, IsByte, [], ap, append_assoc, arith, drop, inl, inr,
  length, refl, sym, take-append, take-append-drop, true, ℕ, ◌++◌, ◌∙◌, ◌∷◌, ◌≡◌, ◌≤◌, ◌⊎◌,
}

-- `p` was read from the front of `r`, and `rest` is the port behind it.
pub record WasRead (r : Port) (p : Packet) (rest : Port) : Type 0 where
  pub handled : accepted p.no_crc.command ≡ true
  pub short : p.no_crc.data_length ≤ max_data_length
  pub checked : validate p ≡ true
  pub on_wire : r.pending ≡ wire p.no_crc ++ rest.pending

read_from-split :
    (r : Port) (n : ℕ) → r.pending ≡ (read_from r n).bytes ++ (read_from r n).port.pending
unfolding read_from
read_from-split r n = sym (take-append-drop n r.pending)

module _ (cmd len : ℕ) (bs : Bytes) (r : Port) where
  read_crc-inv :
      {p : Packet} {rest : Port}
      → read_crc cmd len bs r ≡ packet p rest
      → (length (read_from r 2).bytes ≡ 2)
        × (validate p ≡ true)
        × (p.no_crc ≡ assembled cmd len bs)
        × (p.crc ≡ be16_value (read_from r 2).bytes)
        × (rest ≡ (read_from r 2).port)
  unfolding read_crc
  read_crc-inv h = ground arith

  validate-crc :
      {p : Packet}
      → length bs ≡ len
      → len ≤ max_data_length
      → p.no_crc ≡ assembled cmd len bs
      → validate p ≡ true
      → p.crc ≡ cf_crc (cmd ∷ len ∷ bs)
  unfolding validate
  validate-crc e h a v = ground (arith, crc_of-assembled cmd len bs e h)

read_from-IsByte : (r : Port) (n : ℕ) → All IsByte r.pending → All IsByte (read_from r n).bytes
unfolding read_from
read_from-IsByte r n h = All-take IsByte n r.pending h

be16-value : (bs : Bytes) → length bs ≡ 2 → All IsByte bs → be16 (be16_value bs) ≡ bs
be16-value [] e h = absurd (omega arith)
be16-value (a ∷ []) e h = absurd (omega arith)
be16-value (a ∷ b ∷ []) e h = ground arith
be16-value (a ∷ b ∷ c ∷ bs) e h = absurd (omega arith)

wire-assembled :
    (cmd len : ℕ) (bs : Bytes)
    → length bs ≡ len
    → wire (assembled cmd len bs) ≡ cmd ∷ len ∷ (bs ++ be16 (cf_crc (cmd ∷ len ∷ bs)))
wire-assembled cmd len bs e = rw (← e) (rw (take-append bs (drop (length bs) zero_pkt.array)))

module _ (cmd len : ℕ) (bs : Bytes) (r : Port) {p : Packet} {rest : Port} where
  read_crc-pending :
      length bs ≡ len
      → len ≤ max_data_length
      → All IsByte r.pending
      → read_crc cmd len bs r ≡ packet p rest
      → r.pending ≡ be16 (cf_crc (cmd ∷ len ∷ bs)) ++ rest.pending
  read_crc-pending e h hb got =
      let (two, valid, is_assembled, crc, port) = read_crc-inv cmd len bs r got in
      let right = validate-crc cmd len bs r {p = p} e h is_assembled valid in
      let value = be16-value (read_from r 2).bytes two (read_from-IsByte r 2 hb) in
      let bytes : be16 (cf_crc (cmd ∷ len ∷ bs)) ≡ (read_from r 2).bytes =
        ap be16 (sym right ∙ crc) ∙ value in
      read_from-split r 2 ∙ sym (ap₂ (λ x (y : Port). x ++ y.pending) bytes port)

  read_crc-WasRead :
      length bs ≡ len
      → len ≤ max_data_length
      → accepted cmd ≡ true
      → All IsByte r.pending
      → read_crc cmd len bs r ≡ packet p rest
      → WasRead (record r { pending = cmd ∷ len ∷ (bs ++ r.pending) }) p rest
  read_crc-WasRead e h a hb got =
      let (two, valid, is_assembled, crc, port) = read_crc-inv cmd len bs r got in
      let frame = ap wire is_assembled ∙ wire-assembled cmd len bs e in
      let tail = read_crc-pending e h hb got in
      record {
        handled = rw is_assembled a;
        short = rw is_assembled h;
        checked = valid;
        on_wire =
            ap (λ x. cmd ∷ len ∷ (bs ++ x)) tail
            ∙ sym (
                ap (λ x. x ++ rest.pending) frame
                ∙ ap (λ x. cmd ∷ len ∷ x) (append_assoc bs _ rest.pending));
      }

read_from-fault : (r : Port) (n : ℕ) → (read_from r n).port.fault ≡ r.fault
unfolding read_from
read_from-fault r n = refl

read_from-port_IsByte :
    (r : Port) (n : ℕ) → All IsByte r.pending → All IsByte (read_from r n).port.pending
unfolding read_from
read_from-port_IsByte r n h = All-drop IsByte n r.pending h

-- The read of the data succeeded, or there was none to read.
read_data-inv :
    (cmd len : ℕ) (r : Port) {p : Packet} {rest : Port}
    → read_data cmd len r ≡ packet p rest
    → (len ≤ max_data_length)
      × ((len ≡ 0) × (read_crc cmd len [] r ≡ packet p rest)
          ⊎ (length (read_from r len).bytes ≡ len)
            × (read_crc cmd len (read_from r len).bytes (read_from r len).port ≡ packet p rest))
unfolding read_data
read_data-inv cmd len r h = ground arith

read_data-WasRead :
    (cmd len : ℕ) (r : Port) {p : Packet} {rest : Port}
    → accepted cmd ≡ true
    → All IsByte r.pending
    → read_data cmd len r ≡ packet p rest
    → WasRead (record r { pending = cmd ∷ len ∷ r.pending }) p rest
read_data-WasRead cmd len r a hb got =
    let (short, how) = read_data-inv cmd len r got in
    elim how [
      | inl (none_read, g) ↦ read_crc-WasRead cmd len [] r (sym none_read) short a hb g
      | inr (full, g) ↦
          let c = read_from r len in
          let read =
            read_crc-WasRead cmd len c.bytes c.port full short a (read_from-port_IsByte r len hb)
              g in
          record {
            handled = read.handled;
            short = read.short;
            checked = read.checked;
            on_wire = ap (λ x. cmd ∷ len ∷ x) (read_from-split r len) ∙ read.on_wire;
          }
    ]

read_body-WasRead :
    (head : Bytes) (r : Port) {p : Packet} {rest : Port}
    → All IsByte r.pending
    → read_body head r ≡ packet p rest
    → WasRead (record r { pending = head ++ r.pending }) p rest
unfolding read_body
read_body-WasRead [] r hb got = cc
read_body-WasRead (cmd ∷ []) r hb got = cc
read_body-WasRead (cmd ∷ len ∷ []) r hb got = elim (Bool-cases (accepted cmd)) [
  | inl a ↦ read_data-WasRead cmd len r a hb (ground arith)
  | inr a ↦ absurd (ground arith)
]
read_body-WasRead (cmd ∷ len ∷ x ∷ xs) r hb got = cc

get_packet-inv :
    (r : Port) {p : Packet} {rest : Port}
    → get_packet r ≡ packet p rest
    → read_body (read_from r 2).bytes (read_from r 2).port ≡ packet p rest
unfolding get_packet
get_packet-inv r h = ground arith

-- A packet that `GetPacket` returns is the front of what the port held, byte by byte: its type is
-- one that the driver handles, it has at most 22 bytes of data, its CRC is right, and the port
-- goes on behind it.
pub get_packet-WasRead :
    (r : Port) {p : Packet} {rest : Port}
    → All IsByte r.pending
    → get_packet r ≡ packet p rest
    → WasRead r p rest
get_packet-WasRead r hb got =
    let c = read_from r 2 in
    let read =
      read_body-WasRead c.bytes c.port (read_from-port_IsByte r 2 hb) (get_packet-inv r got) in
    record {
      handled = read.handled;
      short = read.short;
      checked = read.checked;
      on_wire = read_from-split r 2 ∙ read.on_wire;
    }
