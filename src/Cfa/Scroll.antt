-- ===== src/Cfa/Scroll.antt =====
-- pkg/hw/cfa/blurb.go: text that scrolls. Positions are 64-bit `uint`s; `final_pos` is the last
-- one that is useful.
pub mod Cycle
use gprovision.Cfa.Incoming.{next}
use gprovision.Cfa.Text.{Coord, fit, visible}
use gprovision.Prelude.{
  Bool, Bytes, List, Option, equal, false, if◌then◌else◌, leb, length, ltb, none, not, some, true,
  u64, u8, ℕ, ◌&&◌, ◌+◌, ◌-◌, ◌==◌, ◌||◌,
}

-- Part of the horizScroller: what `updateState` reads and writes.
pub record Horiz : Type 0 where
  pub pos : ℕ
  pub scroll_state : ℕ

-- `NewHorizScroller`
abbrev pub new_horiz : Horiz
new_horiz = record { pos = 0; scroll_state = 1 }

unfoldable pub final_pos : ℕ → ℕ → ℕ
final_pos len avail = u64 (len + 18446744073709551616 - avail)

-- `updateState`, with its answer.
unfoldable pub update_state : ℕ → Horiz → Bool × Horiz
update_state final hs =
    let s = hs.scroll_state in
    let early = leb s 2 in
    let wanted = if early then 0 else s - 2 in
    let past = ltb final wanted in
    let next = if ltb (final + 4) (s + 1) then 0 else s + 1 in
    (
      if past then false else if early then not (ltb 0 s) else true,
      record { pos = if past then final else wanted; scroll_state = next },
    )

abbrev pub off_screen : ℕ
off_screen = 255

-- The horizScroller with its text and place.
pub record HorizScroller : Type 0 where
  pub txt : Bytes
  pub avail_chars : ℕ
  pub scroll : Horiz
  pub start : Coord
  pub dims : Coord
  pub last_pos : Coord
  pub last_drawn : Bytes

-- `draw`: the bytes to write, if any, and the new state. `have_tick` is false if the channel is
-- set and empty.
unfoldable pub draw : Bool → Bool → HorizScroller → Option (Coord × Bytes) × HorizScroller
draw force have_tick hs =
    let same_row = (hs.last_pos.row == hs.start.row) && (hs.last_pos.col == hs.start.col) in
    let scroll =
      if have_tick
      then (update_state (final_pos (length hs.txt) hs.avail_chars) hs.scroll).1
      else hs.scroll in
    let txt = visible hs.txt (u8 scroll.pos) hs.dims.col true in
    let scroll_changed = not (equal txt hs.last_drawn) in
    (
      if force || not same_row || scroll_changed then some (hs.start, txt) else none,
      record hs {
        scroll = scroll;
        last_pos = hs.start;
        last_drawn = if scroll_changed then txt else hs.last_drawn;
      },
    )

unfoldable pub move : Coord → HorizScroller → HorizScroller
move new_start hs = record hs {
  start = new_start;
  scroll =
      if new_start.row == off_screen
      then record { pos = hs.scroll.pos; scroll_state = 0 }
      else hs.scroll;
}

-- `topIdx` after `vertScroller.draw`, a byte: on an error it stays.
unfoldable pub next_top : ℕ → Bool → ℕ → ℕ
next_top lines error top = if error then top else if leb lines top then 0 else u8 (top + 1)

pub data Blurb : Type 0 where
  no_scroller : List Bytes → Blurb
  vert_scroller : List Bytes → Blurb
  horiz_scroller : Bytes → Blurb

-- `NewBlurb`
unfoldable pub new_blurb : Bytes → Coord → Blurb
new_blurb txt dims =
    let lines = fit txt (record { col = dims.col; row = 255 }) in
    if leb (length lines) (dims.row + 1)
    then no_scroller lines
    else if ltb 0 dims.row
    then vert_scroller lines
    else horiz_scroller txt
