-- ===== src/Raid/Device.antt =====
-- device.go `AlignedRead` and `AlignedWrite`: any part of a disk, by accesses to aligned blocks.
pub mod Reads
pub mod Writes
use Prim.Native.Nat.{min}
use gprovision.Prelude.{
  Bool, Bytes, Option, drop, if◌then◌else◌, leb, length, ltb, none, not, some, suc, take, zero, ℕ,
  ◌&&◌, ◌*◌, ◌++◌, ◌+◌, ◌-◌, ◌==◌,
}
use gprovision.Raid.Align.{align, align_pos, negsuc, pos, ℤ}

-- The largest alignment that is tried.
abbrev pub max_align : ℕ
max_align = 16384

-- `Seek`: from the end for a negative offset, which must not lie before the start.
unfoldable pub seek : ℕ → ℤ → Option ℕ
seek dev_size (pos a) = some a
seek dev_size (negsuc n) = if ltb dev_size (n + 1) then none else some (dev_size - (n + 1))

-- `readEnd`: the length of the read, up to an aligned place at or behind the end of the request.
unfoldable pub read_end : ℕ → ℕ → ℕ → ℕ → ℕ
read_end begin offset1 size alignment =
    let (r, o) = align_pos (begin + offset1 + size) alignment in
    (if ltb 0 o then r + alignment else r) - begin

-- What `rawAlignedRead` returns: the place, the request's offsets in the buffer, and the buffer.
pub record RawRead : Type 0 where
  pub begin : ℕ
  pub offset1 : ℕ
  pub offset2 : ℕ
  pub buf : Bytes

-- Where the device lets a read or write of a length begin.
module _ (accepts : ℕ → ℕ → Bool) where
  -- One round of the loop, with an alignment; a read that is cut short by the end of the disk is no
  -- error. `none` is an error.
  unfoldable pub try_read : Bytes → ℤ → ℕ → ℕ → Option RawRead
  try_read contents at size alignment =
      let (b, offset1) = align at alignment in
      elim (seek (length contents) b) [
        | none ↦ none
        | some begin ↦
            let end = read_end begin offset1 size alignment in
            let got = take end (drop begin contents) in
            if not (accepts begin end)
            then none
            else if length got == 0 && ltb 0 end && not (leb (offset1 + size) (length got))
            then none
            else some (record {
              begin = begin;
              offset1 = offset1;
              offset2 = min (offset1 + size) (length got);
              buf = got;
            })
      ]

  -- The loop, with the rounds that are left; the alignment that is found is kept, and 0 after an
  -- error. As many rounds are left as the alignment can be doubled.
  unfoldable pub read_loop : ℕ → Bytes → ℤ → ℕ → ℕ → ℕ × Option RawRead
  read_loop zero contents at size alignment = (0, none)
  read_loop (suc n) contents at size alignment =
      let later = read_loop n contents at size (alignment * 2) in
      if ltb max_align alignment then (0, none) else elim (try_read contents at size alignment) [
        | some r ↦ (alignment, some r)
        | none ↦ later
      ]

  abbrev out_of_bounds : ℕ → ℤ → Bool
  out_of_bounds dev_size (pos a) = ltb dev_size a
  out_of_bounds dev_size (negsuc n) = ltb dev_size (n + 1)

  unfoldable pub raw_aligned_read : Bytes → ℤ → ℕ → ℕ → ℕ × Option RawRead
  raw_aligned_read contents at size alignment =
      if out_of_bounds (length contents) at
      then (alignment, none)
      else read_loop 16 contents at size (if alignment == 0 then 512 else alignment)

  -- `AlignedRead`
  unfoldable pub aligned_read : Bytes → ℤ → ℕ → ℕ → ℕ × Option Bytes
  aligned_read contents at size alignment =
      let (alignment', raw) = raw_aligned_read contents at size alignment in
      (alignment', elim raw [ none ↦ none | some r ↦ some (drop r.offset1 (take r.offset2 r.buf)) ])

  -- The rest of `AlignedWrite`, behind the read.
  unfoldable pub write_back : Bytes → Bytes → RawRead → Option Bytes
  write_back contents new r =
      if ltb r.offset2 (r.offset1 + length new)
      then none
      else if not (accepts r.begin (length r.buf))
      then none
      else some (
          take r.begin contents
          ++ (take r.offset1 r.buf ++ new ++ drop r.offset2 r.buf)
          ++ drop (r.begin + length r.buf) contents)

  -- `AlignedWrite`: the contents after it, or `none` for an error.
  unfoldable pub aligned_write : Bytes → ℤ → Bytes → ℕ → ℕ × Option Bytes
  aligned_write contents at new alignment =
      let (alignment', raw) = raw_aligned_read contents at (length new) alignment in
      (alignment', elim raw [ none ↦ none | some r ↦ write_back contents new r ])
