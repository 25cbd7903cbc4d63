-- ===== src/Raid/Metadata/RoundTrip.antt =====
-- The metadata that are saved before an erase are put back by `Restore`.
use Prim.Native.Nat.{min}
use mathlib.Core.Path.{ap₂}
use gprovision.Prelude.{
  Bool, Bytes, Option, Option-cases, [], ap, append-nil, arith, drop, drop-eq_of_length,
  if◌then◌else◌, inl, inr, length, length-drop, length-take, ltb, none, some, sym, take,
  take-eq_of_length, u64, ℕ, ◌++◌, ◌+◌, ◌-◌, ◌<◌, ◌∙◌, ◌∷◌, ◌≡◌, ◌≤◌,
}
use gprovision.Raid.Align.{negsuc, position}
use gprovision.Raid.Device.{aligned_read, aligned_write}
use gprovision.Raid.Device.Reads.{aligned_read_lem}
use gprovision.Raid.Device.Writes.{aligned_write_lem}
use gprovision.Raid.Metadata.{
  RaidType, backup, ddf, find_offsets, lba2byte, msm, restore, save_ddf, save_from, save_imsm,
  to_int64, unknown, unset,
}

-- The metadata are the end of the disk.
abbrev pub IsEnd : Bytes → Bytes → Type 0
IsEnd m contents = (length m ≤ length contents) × (m ≡ drop (length contents - length m) contents)

length-drop_end : (p n : ℕ) (c : Bytes) → p + n ≡ length c → length (drop p c) ≡ n
length-drop_end p n c h = omega (arith, length-drop p c)

-- A read up to the end of the disk.
read_stop :
    (c : Bytes) (p size : ℕ) {m : Bytes}
    → m ≡ take size (drop p c)
    → p + size ≡ length c
    → IsEnd m c
read_stop c p size {m} e h =
    let whole : m ≡ drop p c =
      e ∙ take-eq_of_length size (drop p c) (omega (arith, length-drop p c, h)) in
    let len : length m ≡ size = ap length whole ∙ length-drop_end p size c h in
    let place : p ≡ length c - length m = omega (arith, len, h) in
    (omega (arith, len, h), whole ∙ ap (λ n. drop n c) place)

length-read :
    (c : Bytes) (p size : ℕ) {m : Bytes}
    → m ≡ take size (drop p c)
    → length m ≡ min size (length c - p)
length-read c p size {m} e =
    ap length e ∙ length-take size (drop p c) ∙ ap (min size) (length-drop p c)

-- The place and the length of the last read of `saveDDF`.
at_end :
    (len start got : ℕ)
    → len < 9223372036854775808
    → start < 18446744073709551616
    → u64 (len + 18446744073709551616 - start) ≤ got
    → got ≡ min (u64 (len + 18446744073709551616 - start)) (len - position len (to_int64 start))
    → position len (to_int64 start) + u64 (len + 18446744073709551616 - start) ≡ len
at_end len start got small in_64 h e = ground (arith, h, e)

lba2byte_bound :
    (sector_size : Option ℕ) (offs : ℕ) {at : ℕ}
    → lba2byte sector_size offs ≡ some at
    → at < 18446744073709551616
unfolding lba2byte
lba2byte_bound none offs e = absurd (ground (arith, e))
lba2byte_bound (some size) offs e = ground (arith, e)

module _ (accepts : ℕ → ℕ → Bool) (sector_size : Option ℕ) where
  save_imsm-IsEnd :
      (contents : Bytes) (alignment : ℕ) {m : Bytes}
      → (save_imsm accepts sector_size contents alignment).1 ≡ some m
      → IsEnd m contents
  unfolding save_imsm
  save_imsm-IsEnd contents alignment {m} e =
      elim (Option-cases (aligned_read accepts contents (negsuc 1023) 1024 alignment).1) [
        | inl f ↦ absurd (ground (arith, e, f))
        | inr (got, f) ↦
            let same : m ≡ got = ground (arith, e, f) in
            let len : length m ≡ 1024 = ground (arith, e, f) in
            let read = same ∙ aligned_read_lem accepts contents (negsuc 1023) 1024 alignment f in
            read_stop contents (length contents - (1023 + 1)) 1024 read
              (omega (arith, len, length-read contents (length contents - (1023 + 1)) 1024 read))
      ]

  save_from-IsEnd :
      (contents : Bytes) (alignment start : ℕ) {m : Bytes}
      → length contents < 9223372036854775808
      → start < 18446744073709551616
      → (save_from accepts sector_size contents alignment start).1 ≡ some m
      → IsEnd m contents
  unfolding save_from
  save_from-IsEnd contents alignment start {m} small in_64 e =
      let buf_siz = u64 (length contents + 18446744073709551616 - start) in
      let at = to_int64 start in
      elim (Option-cases (aligned_read accepts contents at buf_siz alignment).1) [
        | inl f ↦ absurd (ground (arith, e, f))
        | inr (got, f) ↦
            let same : m ≡ got = ground (arith, e, f) in
            let len : buf_siz ≤ length m = ground (arith, e, f) in
            let read = same ∙ aligned_read_lem accepts contents at buf_siz alignment f in
            let place = position (length contents) at in
            read_stop contents place buf_siz read (
              at_end (length contents) start (length m) small in_64 len
                (length-read contents place buf_siz read))
      ]

  save_ddf-IsEnd :
      (contents : Bytes) (alignment : ℕ) {m : Bytes}
      → length contents < 9223372036854775808
      → (save_ddf accepts sector_size contents alignment).1 ≡ some m
      → IsEnd m contents
  unfolding save_ddf
  save_ddf-IsEnd contents alignment {m} small e =
      let read = aligned_read accepts contents (negsuc 511) 512 alignment in
      elim (Option-cases read.1) [
        | inl f ↦ absurd (ground (arith, e, f))
        | inr (anchor, f) ↦
            let offs = find_offsets anchor in
            let first = if ltb offs.0 offs.1 then offs.0 else offs.1 in
            elim (Option-cases (lba2byte sector_size first)) [
              | inl g ↦ absurd (ground (arith, e, f, g))
              | inr (start, g) ↦
                  save_from-IsEnd contents read.0 start small (lba2byte_bound sector_size first g)
                    (ground (arith, e, f, g))
            ]
      ]

  backup-IsEnd :
      (kind : RaidType) (contents : Bytes) (alignment : ℕ) {m : Bytes}
      → length contents < 9223372036854775808
      → (backup accepts sector_size kind contents alignment).1 ≡ some m
      → IsEnd m contents
  unfolding backup
  backup-IsEnd unset contents alignment small e = absurd (ground (arith, e))
  backup-IsEnd unknown contents alignment {m} small e =
      let empty : m ≡ [] = cc in
      rw empty (omega arith, sym (drop-eq_of_length (length contents - 0) contents (omega arith)))
  backup-IsEnd msm contents alignment small e = save_imsm-IsEnd contents alignment e
  backup-IsEnd ddf contents alignment small e = save_ddf-IsEnd contents alignment small e

  -- The write at the end of a disk.
  restored :
      (m erased : Bytes) (alignment n : ℕ) {contents' : Bytes}
      → length m ≡ n + 1
      → length m ≤ length erased
      → (aligned_write accepts erased (negsuc n) m alignment).1 ≡ some contents'
      → contents' ≡ take (length erased - length m) erased ++ m
  restored m erased alignment n {contents'} len fits e =
      let place : length erased - (n + 1) ≡ length erased - length m = omega (arith, len) in
      let nothing : drop (length erased - (n + 1) + length m) erased ≡ [] =
        drop-eq_of_length (length erased - (n + 1) + length m) erased (omega (arith, len, fits)) in
      aligned_write_lem accepts erased (negsuc n) m alignment e
      ∙ ap (λ y. take (length erased - (n + 1)) erased ++ (m ++ y)) nothing
      ∙ ap₂ (λ p y. take p erased ++ y) place (append-nil m)

  restore_nil :
      (kind : RaidType) (erased : Bytes) (alignment : ℕ) {contents' : Bytes}
      → (restore accepts sector_size kind [] erased alignment).1 ≡ some contents'
      → ⊥
  unfolding restore
  restore_nil unset erased alignment f = ground (arith, f)
  restore_nil unknown erased alignment f = ground (arith, f)
  restore_nil msm erased alignment f = ground (arith, f)
  restore_nil ddf erased alignment f = ground (arith, f)

  -- With metadata, only an array of a known type is written.
  restore_written :
      (kind : RaidType) (contents erased : Bytes) (alignment alignment' b : ℕ) (m : Bytes)
      {contents' : Bytes}
      → (backup accepts sector_size kind contents alignment).1 ≡ some (b ∷ m)
      → (restore accepts sector_size kind (b ∷ m) erased alignment').1 ≡ some contents'
      → (aligned_write accepts erased (negsuc (length m)) (b ∷ m) alignment').1 ≡ some contents'
  unfolding restore backup
  restore_written unset contents erased alignment alignment' b m e f = absurd (ground (arith, e))
  restore_written unknown contents erased alignment alignment' b m e f = absurd (ground (arith, e))
  restore_written msm contents erased alignment alignment' b m e f = f
  restore_written ddf contents erased alignment alignment' b m e f = f

  -- Metadata that `Backup` saved are put back by `Restore` after the disk was erased: if neither
  -- returns an error, the disk ends as it did before, from where the metadata began, and is as the
  -- erase left it up to there. The disk is smaller than 2^63 bytes.
  pub restore-backup :
      (kind : RaidType) (contents erased : Bytes) (alignment alignment' : ℕ) (m : Bytes)
      {contents' : Bytes}
      → length contents < 9223372036854775808
      → length erased ≡ length contents
      → (backup accepts sector_size kind contents alignment).1 ≡ some m
      → (restore accepts sector_size kind m erased alignment').1 ≡ some contents'
      → (0 < length m)
        × (contents'
            ≡ take (length contents - length m) erased
              ++ drop (length contents - length m) contents)
  restore-backup kind contents erased alignment alignment' [] small same e f =
      absurd (restore_nil kind erased alignment' f)
  restore-backup kind contents erased alignment alignment' (b ∷ m) small same e f =
      let (fits, is_end) = backup-IsEnd kind contents alignment small e in
      let written =
        restored (b ∷ m) erased alignment' (length m) (omega arith) (omega (arith, fits, same))
          (restore_written kind contents erased alignment alignment' b m e f) in
      (
        omega arith,
        written ∙ ap₂ (λ n y. take n erased ++ y) (ap (λ n. n - length (b ∷ m)) same) is_end,
      )
