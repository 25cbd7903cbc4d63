-- ===== src/Raid/Device/Reads.antt =====
-- `AlignedRead` returns the part that was asked for.
use Prim.Native.Nat.{min}
use gprovision.Prelude.{
  Bool, Bool-cases, Bytes, Option-cases, ap, arith, drop, drop-take, drop_add, if◌then◌else◌, inl,
  inr, length, ltb, refl, some, suc, sym, take, take-min, take-take_of_le, zero, ℕ, ◌*◌, ◌+◌, ◌<◌,
  ◌==◌, ◌∙◌, ◌≡◌, ◌≤◌,
}
use gprovision.Raid.Align.{align, negsuc, pos, position, ℤ}
use gprovision.Raid.Align.Laws.{align_pos_lem}
use gprovision.Raid.Device.{
  RawRead, aligned_read, max_align, out_of_bounds, raw_aligned_read, read_end, read_loop, seek,
  try_read,
}

-- The part of a list that a cut of a cut is.
slice_lem :
    (o size end : ℕ) (xs : Bytes)
    → o + size ≤ end
    → drop o (take (min (o + size) (length (take end xs))) (take end xs)) ≡ take size (drop o xs)
slice_lem o size end xs h =
    ap (drop o) (take-min (o + size) (take end xs) ∙ take-take_of_le (o + size) end xs h)
    ∙ drop-take o size xs

read_end_enough :
    (begin offset1 size alignment : ℕ)
    → 0 < alignment
    → offset1 + size ≤ read_end begin offset1 size alignment
unfolding read_end
read_end_enough begin offset1 size alignment h =
    let sum = align_pos_lem (begin + offset1 + size) alignment h in ground (arith, sum.0, sum.1)

seek-align :
    (at : ℤ) (alignment size : ℕ) {begin : ℕ}
    → 0 < alignment
    → seek size (align at alignment).0 ≡ some begin
    → begin + (align at alignment).1 ≡ position size at
unfolding seek align
seek-align (pos a) alignment size h e =
    let sum = align_pos_lem a alignment h in ground (arith, e, sum.0)
seek-align (negsuc n) alignment size h e = grind (arith, e)

-- The result of a read of `end` bytes at a place.
abbrev raw_at : Bytes → ℕ → ℕ → ℕ → ℕ → RawRead
raw_at contents begin offset1 end size =
    let got = take end (drop begin contents) in
    record {
      begin = begin;
      offset1 = offset1;
      offset2 = min (offset1 + size) (length got);
      buf = got;
    }

-- The buffer holds the request: it was read around the place that the offset stands for.
pub record IsPart (contents : Bytes) (at : ℤ) (size : ℕ) (r : RawRead) : Type 0 where
  pub end : ℕ
  pub is_raw : r ≡ raw_at contents r.begin r.offset1 end size
  pub place : r.begin + r.offset1 ≡ position (length contents) at
  pub enough : r.offset1 + size ≤ end

raw_slice :
    (contents : Bytes) (at : ℤ) (size begin offset1 end : ℕ) {r : RawRead}
    → r ≡ raw_at contents begin offset1 end size
    → begin + offset1 ≡ position (length contents) at
    → offset1 + size ≤ end
    → IsPart contents at size r
raw_slice contents at size begin offset1 end {r} e p h =
    rw e (record { end = end; is_raw = refl; place = p; enough = h })

part_bytes :
    (contents : Bytes) (at : ℤ) (size : ℕ) (r : RawRead)
    → IsPart contents at size r
    → drop r.offset1 (take r.offset2 r.buf)
      ≡ take size (drop (position (length contents) at) contents)
part_bytes contents at size r i =
    ap (λ q. drop q.offset1 (take q.offset2 q.buf)) i.is_raw
    ∙ slice_lem r.offset1 size i.end (drop r.begin contents) i.enough
    ∙ ap (take size) (sym (drop_add r.begin r.offset1 contents) ∙ ap (λ n. drop n contents) i.place)

module _ (accepts : ℕ → ℕ → Bool) where
  try_read-raw :
      (contents : Bytes) (at : ℤ) (size alignment begin : ℕ) {r : RawRead}
      → seek (length contents) (align at alignment).0 ≡ some begin
      → try_read accepts contents at size alignment ≡ some r
      → r
        ≡ raw_at contents begin
            (align at alignment).1
            (read_end begin (align at alignment).1 size alignment)
            size
  unfolding try_read
  try_read-raw contents at size alignment begin e h = ground (arith, e, h)

  try_read-IsPart :
      (contents : Bytes) (at : ℤ) (size alignment : ℕ) {r : RawRead}
      → 0 < alignment
      → try_read accepts contents at size alignment ≡ some r
      → IsPart contents at size r
  unfolding try_read
  try_read-IsPart contents at size alignment {r} h e =
      elim (Option-cases (seek (length contents) (align at alignment).0)) [
        | inl f ↦ absurd (ground (arith, e, f))
        | inr (begin, f) ↦
            raw_slice contents at size begin (align at alignment).1
              (read_end begin (align at alignment).1 size alignment)
              (try_read-raw contents at size alignment begin f e)
              (seek-align at alignment (length contents) h f)
              (read_end_enough begin (align at alignment).1 size alignment h)
      ]

  read_loop-IsPart :
      (n : ℕ) (contents : Bytes) (at : ℤ) (size alignment : ℕ) {r : RawRead}
      → 0 < alignment
      → (read_loop accepts n contents at size alignment).1 ≡ some r
      → IsPart contents at size r
  unfolding read_loop
  read_loop-IsPart zero contents at size alignment h e = cc
  read_loop-IsPart (suc n) contents at size alignment {r} h e =
      elim (Bool-cases (ltb max_align alignment)) [
        | inl t ↦ absurd (ground (arith, e, t))
        | inr f ↦ elim (Option-cases (try_read accepts contents at size alignment)) [
          | inl none_read ↦
              read_loop-IsPart n contents at size (alignment * 2) (omega (arith, h))
                (ground (arith, e, f, none_read))
          | inr (r', was_read) ↦
              try_read-IsPart contents at size alignment h
                (was_read ∙ ground (arith, e, f, was_read))
        ]
      ]

  pub raw_aligned_read-IsPart :
      (contents : Bytes) (at : ℤ) (size alignment : ℕ) {r : RawRead}
      → (raw_aligned_read accepts contents at size alignment).1 ≡ some r
      → IsPart contents at size r
  unfolding raw_aligned_read
  raw_aligned_read-IsPart contents at size alignment {r} e =
      elim (Bool-cases (out_of_bounds accepts (length contents) at)) [
        | inl t ↦ absurd (ground (arith, e, t))
        | inr f ↦
            read_loop-IsPart 16 contents at size (if alignment == 0 then 512 else alignment)
              (ground arith) (ground (arith, e, f))
      ]

  -- Whatever accesses the device accepts, and with whatever alignment: what `AlignedRead` returns is
  -- the part of the disk that was asked for, as far as the disk goes.
  pub aligned_read_lem :
      (contents : Bytes) (at : ℤ) (size alignment : ℕ) {got : Bytes}
      → (aligned_read accepts contents at size alignment).1 ≡ some got
      → got ≡ take size (drop (position (length contents) at) contents)
  unfolding aligned_read
  aligned_read_lem contents at size alignment {got} e =
      elim (Option-cases (raw_aligned_read accepts contents at size alignment).1) [
        | inl f ↦ absurd (ground (arith, e, f))
        | inr (r, f) ↦
            let returned : got ≡ drop r.offset1 (take r.offset2 r.buf) = ground (arith, e, f) in
            returned
            ∙ part_bytes contents at size r (raw_aligned_read-IsPart contents at size alignment f)
      ]
