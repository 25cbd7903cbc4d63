-- ===== src/Raid/Device/Writes.antt =====
-- `AlignedWrite` changes the part that it is given, and nothing else.
use Prim.Native.Nat.{min}
use mathlib.Core.Path.{ap₂}
use gprovision.Prelude.{
  Bool, Bool-cases, Bytes, Option-cases, ap, append_assoc, arith, drop, drop-append_of_le, drop_add,
  inl, inr, length, length-take, ltb, some, sym, take, take-append-drop, take-min, take-take_of_le,
  take_add, ℕ, ◌++◌, ◌+◌, ◌∙◌, ◌≡◌, ◌≤◌,
}
use gprovision.Raid.Align.{position, ℤ}
use gprovision.Raid.Device.{RawRead, aligned_write, raw_aligned_read, write_back}
use gprovision.Raid.Device.Reads.{IsPart, raw_aligned_read-IsPart}

-- A list with a part of it replaced.
abbrev pub replaced : ℕ → Bytes → Bytes → Bytes
replaced place new contents = take place contents ++ (new ++ drop (place + length new) contents)

drop-take_rest :
    (k end : ℕ) (xs : Bytes)
    → k ≤ length (take end xs)
    → drop k (take end xs) ++ drop (length (take end xs)) xs ≡ drop k xs
drop-take_rest k end xs h =
    let t = take end xs in
    let same : take (length t) xs ≡ t =
      ap (λ n. take n xs) (length-take end xs) ∙ take-min end xs in
    let whole : t ++ drop (length t) xs ≡ xs =
      ap (λ y. y ++ drop (length t) xs) (sym same) ∙ take-append-drop (length t) xs in
    sym (drop-append_of_le k t (drop (length t) xs) h) ∙ ap (drop k) whole

plus_assoc : (a b c : ℕ) → a + (b + c) ≡ a + b + c
plus_assoc a b c = omega arith

regroup : (a b n c r : Bytes) → a ++ (b ++ n ++ c) ++ r ≡ a ++ b ++ (n ++ (c ++ r))
regroup a b n c r = simp append_assoc

-- The buffer with the new bytes, written back to where it was read.
written_lem :
    (contents new : Bytes) (begin o end : ℕ)
    → o + length new ≤ length (take end (drop begin contents))
    → o + length new ≤ end
    → (take begin contents
        ++ (take o (take end (drop begin contents))
            ++ new
            ++ drop (o + length new) (take end (drop begin contents)))
        ++ drop (begin + length (take end (drop begin contents))) contents)
      ≡ replaced (begin + o) new contents
written_lem contents new begin o end h k =
    let d = drop begin contents in
    let t = take end d in
    let n = length new in
    let front : take begin contents ++ take o t ≡ take (begin + o) contents =
      ap (λ y. take begin contents ++ y) (take-take_of_le o end d (omega (arith, k)))
      ∙ sym (take_add begin o contents) in
    let back : drop (o + n) t ++ drop (begin + length t) contents ≡ drop (begin + o + n) contents =
      ap (λ y. drop (o + n) t ++ y) (drop_add begin (length t) contents)
      ∙ drop-take_rest (o + n) end d h
      ∙ sym (drop_add begin (o + n) contents)
      ∙ ap (λ i. drop i contents) (plus_assoc begin o n) in
    regroup (take begin contents) (take o t) new (drop (o + n) t) (drop (begin + length t) contents)
    ∙ ap₂ (λ a b. a ++ (new ++ b)) front back

-- The request was read whole.
the_end : (o o2 n l : ℕ) → o2 ≡ min (o + n) l → o + n ≤ o2 → o2 ≡ o + n
the_end o o2 n l e h = omega arith

module _ (accepts : ℕ → ℕ → Bool) where
  write_back-replaced :
      (contents : Bytes) (at : ℤ) (new : Bytes) (r : RawRead) {contents' : Bytes}
      → IsPart contents at (length new) r
      → write_back accepts contents new r ≡ some contents'
      → contents' ≡ replaced (position (length contents) at) new contents
  unfolding write_back
  write_back-replaced contents at new r i e =
      let t = take i.end (drop r.begin contents) in
      let n = length new in
      let same_buf : r.buf ≡ t = ap (λ q. q.buf) i.is_raw in
      let same_end : r.offset2 ≡ min (r.offset1 + n) (length t) = ap (λ q. q.offset2) i.is_raw in
      elim (Bool-cases (ltb r.offset2 (r.offset1 + n))) [
        | inl short ↦ absurd (ground (arith, e, short))
        | inr long ↦ elim (Bool-cases (accepts r.begin (length r.buf))) [
          | inl t' ↦
              let written =
                ap₂
                  (λ buf o.
                    take r.begin contents
                    ++ (take r.offset1 buf ++ new ++ drop o buf)
                    ++ drop (r.begin + length buf) contents)
                  same_buf
                  (the_end r.offset1 r.offset2 n (length t) same_end (ground (arith, long))) in
              ground (arith, e, long, t')
              ∙ written
              ∙ written_lem contents new r.begin r.offset1 i.end (ground (arith, long, same_end))
                  i.enough
              ∙ ap (λ p. replaced p new contents) i.place
          | inr f ↦ absurd (ground (arith, e, long, f))
        ]
      ]

  -- `AlignedWrite` that returns no error puts the new bytes at the place of the offset; all other
  -- bytes of the disk are as before.
  pub aligned_write_lem :
      (contents : Bytes) (at : ℤ) (new : Bytes) (alignment : ℕ) {contents' : Bytes}
      → (aligned_write accepts contents at new alignment).1 ≡ some contents'
      → contents' ≡ replaced (position (length contents) at) new contents
  unfolding aligned_write
  aligned_write_lem contents at new alignment e =
      elim (Option-cases (raw_aligned_read accepts contents at (length new) alignment).1) [
        | inl f ↦ absurd (ground (arith, e, f))
        | inr (r, f) ↦
            write_back-replaced contents at new r
              (raw_aligned_read-IsPart accepts contents at (length new) alignment f)
              (ground (arith, e, f))
      ]
