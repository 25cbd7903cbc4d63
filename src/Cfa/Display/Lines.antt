-- ===== src/Cfa/Display/Lines.antt =====
-- `writeLines` fills the whole display: one packet for each row, each as wide as a row.
use gprovision.Cfa.Display.{after, make_packet, write, write_data, write_lines, write_rows}
use gprovision.Cfa.Display.Fits.{IsDisplay}
use gprovision.Cfa.Errors.{Error, ok}
use gprovision.Cfa.Packet.{PktNoCrc, set_command, set_data, zero_pkt}
use gprovision.Cfa.Text.{Coord, space}
use gprovision.Prelude.{
  All, Bytes, List, Option, [], append-nil, append_assoc, arith, drop, length, length-append,
  length-replicate, none, replicate, suc, true, u8, zero, ℕ, ◌++◌, ◌+◌, ◌-◌, ◌∷◌, ◌≡◌, ◌≤◌,
}
use gprovision.Cfa.Cmd

-- The packet for row `r`: the line with blanks up to the usable width.
abbrev pub row_packet : ℕ → ℕ → Bytes → PktNoCrc
row_packet width r line =
    let bs = 0 ∷ r ∷ (line ++ replicate (width - length line) space) in
    record {
      command = Cmd.write_disp;
      data_length = length bs;
      array = bs ++ drop (length bs) zero_pkt.array;
    }

row_blanks :
    (width len : ℕ) → width ≤ 20 → len ≤ width → u8 (width + 512 - 0 - u8 len) ≡ width - len
row_blanks width len narrow short = ground arith

write_row-data :
    (dims : Coord) (width r : ℕ) (line : Bytes)
    → IsDisplay dims width
    → r ≤ dims.row
    → length line ≤ width
    → write_data dims width (record { col = 0; row = r }) line true
      ≡ ok (0 ∷ r ∷ (line ++ replicate (width - length line) space))
unfolding write_data
write_row-data dims width r line d inside short = ground (
  arith,
  d.narrow,
  d.usable,
  row_blanks width (length line) (omega (arith, d.narrow, d.usable)) short,
)

length-row :
    (width : ℕ) (line : Bytes)
    → length line ≤ width
    → length (line ++ replicate (width - length line) space) ≡ width
length-row width line short = ground (
  arith,
  length-append line (replicate (width - length line) space),
  length-replicate (width - length line) space,
)

make_packet-row :
    (width r : ℕ) (line : Bytes)
    → length line ≤ width
    → width ≤ 20
    → make_packet Cmd.write_disp (0 ∷ r ∷ (line ++ replicate (width - length line) space))
      ≡ ok (row_packet width r line)
unfolding make_packet set_command set_data
make_packet-row width r line short narrow = ground (arith, length-row width line short)

pub write_row :
    (dims : Coord) (width r : ℕ) (line : Bytes)
    → IsDisplay dims width
    → r ≤ dims.row
    → length line ≤ width
    → write dims width (record { col = 0; row = r }) line true ≡ ok (row_packet width r line)
unfolding write
write_row dims width r line d inside short = rw (
  write_row-data dims width r line d inside short,
  make_packet-row width r line short (omega (arith, d.narrow, d.usable)),
)

-- The packets for `n` rows from row `r`: the lines in order, then blank rows.
unfoldable pub row_packets : ℕ → ℕ → ℕ → List Bytes → List PktNoCrc
row_packets width zero r ls = []
row_packets width (suc n) r [] = row_packet width r [] ∷ row_packets width n (r + 1) []
row_packets width (suc n) r (l ∷ ls) = row_packet width r l ∷ row_packets width n (r + 1) ls

abbrev ShortLines : ℕ → List Bytes → Type 0
ShortLines width ls = All (λ l. length l ≤ width) ls

abbrev silent : PktNoCrc → Option Error
silent p = none

write_rows_lem :
    (dims : Coord) (width n r : ℕ) (ls : List Bytes) (sent : List PktNoCrc)
    → IsDisplay dims width
    → n + r ≤ dims.row + 1
    → ShortLines width ls
    → write_rows silent dims width n r ls sent
      ≡ record { sent = sent ++ row_packets width n r ls; error = none }
unfolding write_rows after row_packets
write_rows_lem dims width zero r ls sent d inside short = rw (append-nil sent)
write_rows_lem dims width (suc n) r [] sent d inside short = rw (
  write_row dims width r [] d (omega arith) (omega arith),
  write_rows_lem dims width n (r + 1) [] (sent ++ row_packet width r [] ∷ []) d (omega arith) tt,
  append_assoc sent (row_packet width r [] ∷ []) _,
)
write_rows_lem dims width (suc n) r (l ∷ ls) sent d inside (fits, rest) = rw (
  write_row dims width r l d (omega arith) fits,
  write_rows_lem dims width n (r + 1) ls (sent ++ row_packet width r l ∷ []) d (omega arith) rest,
  append_assoc sent (row_packet width r l ∷ []) _,
)

-- On a display that answers every packet, `writeLines` with lines no wider than the usable width
-- ends without an error and sends exactly one packet for each row of the display, in order: the
-- line of that row (empty where there is none) with blanks up to the usable width.
pub write_lines_fills :
    (dims : Coord) (width : ℕ) (ls : List Bytes)
    → IsDisplay dims width
    → All (λ l. length l ≤ width) ls
    → write_lines (λ p. none) dims width ls
      ≡ record { sent = row_packets width (dims.row + 1) 0 ls; error = none }
unfolding write_lines
write_lines_fills dims width ls d short =
    write_rows_lem dims width (dims.row + 1) 0 ls [] d (omega arith) short
