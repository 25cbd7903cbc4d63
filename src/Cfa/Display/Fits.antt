-- ===== src/Cfa/Display/Fits.antt =====
-- Nothing is sent that would run over the display.
use gprovision.Cfa.Cmd.{clear}
use gprovision.Cfa.Display.{make_packet, write, write_data}
use gprovision.Cfa.Errors.{>>=-eq-ok, ok}
use gprovision.Cfa.Packet.{PktNoCrc, max_data_length, set_command, set_data}
use gprovision.Cfa.Text.{Coord, space}
use gprovision.Prelude.{
  Bool, Bytes, [], arith, length, length-append, replicate, u8, ℕ, ◌+◌, ◌-◌, ◌<◌, ◌≡◌, ◌≤◌,
}
use gprovision.Cfa.Cmd

-- A display of at most twenty columns, of which `width` are usable.
pub record IsDisplay (dims : Coord) (width : ℕ) : Type 0 where
  pub narrow : dims.col < 20
  pub low : dims.row < 256
  pub usable : width ≤ dims.col + 1

make_packet-data :
    (bs : Bytes) {p : PktNoCrc}
    → make_packet Cmd.write_disp bs ≡ ok p
    → (length bs ≤ max_data_length) × (p.data_length ≡ length bs)
unfolding make_packet set_command set_data
make_packet-data bs e = ground arith

write_data-inv :
    (dims start : Coord) (width : ℕ) (txt : Bytes) (clear : Bool) {bs : Bytes}
    → write_data dims width start txt clear ≡ ok bs
    → (u8 (u8 (length txt) + start.col) ≤ width)
      × (start.col ≤ dims.col)
      × (start.row ≤ dims.row)
      × (length txt + 2 ≤ length bs)
unfolding write_data
write_data-inv dims start width txt clear e = ground (
  arith,
  length-append txt (replicate (u8 (width + 512 - start.col - u8 (length txt))) space),
  length-append {A = ℕ} txt [],
)

-- If `write` sends a packet, the text starts on the display and its last byte is within the usable
-- width: the byte sums of the checks cannot wrap, because longer data is refused.
write-fits :
    (dims start : Coord) (width : ℕ) (txt : Bytes) (clear : Bool) {p : PktNoCrc}
    → IsDisplay dims width
    → write dims width start txt clear ≡ ok p
    → (start.row ≤ dims.row) × (start.col + length txt ≤ width)
unfolding write
write-fits dims start width txt clear {p} d e =
    let (bs, made, sent) =
      >>=-eq-ok (write_data dims width start txt clear) (make_packet Cmd.write_disp) e in
    let (len, col, row, long) = write_data-inv dims start width txt clear made in
    let (short, _) = make_packet-data bs sent in (row, omega (arith, d.narrow))
