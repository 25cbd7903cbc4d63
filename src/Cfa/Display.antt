-- ===== src/Cfa/Display.antt =====
-- pkg/hw/cfa/lcd.go `write` and `sendCmd`, util.go `writeLines` and `writeWindow`: what is sent to
-- put text on the display. `dims` is the last position, `width` what `Width` returns.
pub mod Fits
pub mod Lines
use gprovision.Cfa.Cmd.{clear}
use gprovision.Cfa.Errors.{Error, Result, e_len, e_range, err, ok, ◌>>=◌}
use gprovision.Cfa.Packet.{PktNoCrc, set_command, set_data, zero_pkt}
use gprovision.Cfa.Text.{Coord, padcate, space}
use gprovision.Prelude.{
  Bool, Bytes, List, Option, [], false, if◌then◌else◌, length, ltb, none, replicate, some, suc,
  true, u8, zero, ℕ, ◌++◌, ◌+◌, ◌-◌, ◌||◌, ◌∷◌,
}
use gprovision.Cfa.Cmd

-- The checks of `write` and its data; the sums and differences are of bytes.
unfoldable pub write_data : Coord → ℕ → Coord → Bytes → Bool → Result Bytes
write_data dims width start txt clear =
    let len = u8 (length txt) in
    if ltb width (u8 (len + start.col))
    then err e_len
    else if ltb dims.col start.col || ltb dims.row start.row
    then err e_range
    else let blanks = if clear then u8 (width + 512 - start.col - len) else 0 in
      ok (start.col ∷ start.row ∷ (txt ++ replicate blanks space))

-- `sendCmd` up to the link: the packet that is sent.
unfoldable pub make_packet : ℕ → Bytes → Result PktNoCrc
make_packet cmd bs = do p ← set_command zero_pkt cmd; set_data p bs

unfoldable pub write : Coord → ℕ → Coord → Bytes → Bool → Result PktNoCrc
write dims width start txt clear = do
  bs ← write_data dims width start txt clear
  make_packet Cmd.write_disp bs

-- The packets sent so far, and the error that ended the work, if any.
pub record Shown : Type 0 where
  pub sent : List PktNoCrc
  pub error : Option Error

-- One line, blanks behind it, then the rest; `send` is the device's answer to a packet.
module _ (send : PktNoCrc → Option Error) where
  after : Result PktNoCrc → (List PktNoCrc → Shown) → List PktNoCrc → Shown
  after (err e) k sent = record { sent = sent; error = some e }
  after (ok p) k sent = elim (send p) [
    | some e ↦ record { sent = sent ++ p ∷ []; error = some e }
    | none ↦ k (sent ++ p ∷ [])
  ]

  -- The loop of `writeLines` at row `r` with `n` rows left; `rest` is `lines[r:]`.
  write_rows : Coord → ℕ → ℕ → ℕ → List Bytes → List PktNoCrc → Shown
  unfolding after
  write_rows dims width zero r rest sent = record { sent = sent; error = none }
  write_rows dims width (suc n) r [] sent =
      after (write dims width (record { col = 0; row = r }) [] true)
        (write_rows dims width n (r + 1) []) sent
  write_rows dims width (suc n) r (l ∷ ls) sent =
      after (write dims width (record { col = 0; row = r }) l true)
        (write_rows dims width n (r + 1) ls) sent

  unfoldable pub write_lines : Coord → ℕ → List Bytes → Shown
  unfolding write_rows
  write_lines dims width lines = write_rows dims width (dims.row + 1) 0 lines []

  -- `writeWindow`: padded or cut lines in the columns of the window.
  window_rows : Coord → ℕ → ℕ → ℕ → ℕ → ℕ → List Bytes → List PktNoCrc → Shown
  unfolding after
  window_rows dims width zero r col w rest sent = record { sent = sent; error = none }
  window_rows dims width (suc n) r col w [] sent =
      after (write dims width (record { col = col; row = r }) (padcate [] w) false)
        (window_rows dims width n (r + 1) col w []) sent
  window_rows dims width (suc n) r col w (l ∷ ls) sent =
      after (write dims width (record { col = col; row = r }) (padcate l w) false)
        (window_rows dims width n (r + 1) col w ls) sent

  unfoldable pub write_window : Coord → ℕ → Coord → Coord → List Bytes → Shown
  unfolding window_rows
  write_window dims width start size lines =
      window_rows dims width (size.row + 1) start.row start.col size.col lines []
