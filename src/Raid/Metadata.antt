-- ===== src/Raid/Metadata.antt =====
-- imsm.go, ddf.go, and `DetectRaidType`, `Backup` and `Restore` of device.go.
pub mod RoundTrip
use gprovision.Prelude.{
  Bool, Bytes, Option, [], codes, drop, equal, false, if◌then◌else◌, length, ltb, none, not, some,
  take, true, u64, ℕ, ◌%◌, ◌&&◌, ◌*◌, ◌+◌, ◌-◌, ◌==◌, ◌^◌, ◌∷◌,
}
use gprovision.Raid.Align.{negsuc, pos, ℤ}
use gprovision.Raid.Device.{aligned_read, aligned_write}

pub data RaidType : Type 0 where
  unset unknown msm ddf : RaidType

unfoldable pub imsm_sig : Bytes
imsm_sig = codes "Intel Raid ISM Cfg Sig. "

-- `detectIMSM`, on a buffer of at least 1024 bytes.
unfoldable pub detect_imsm : Bytes → Bool
detect_imsm buf = equal (take (length imsm_sig) (drop (length buf - 1024) buf)) imsm_sig

abbrev pub ddf_header_sig : Bytes
ddf_header_sig = 0xde ∷ 0x11 ∷ 0xde ∷ 0x11 ∷ []

-- `hasSig`
unfoldable pub has_sig : Bytes → Bytes → Bool
has_sig buf sig = if ltb (length buf) (length sig) then false else equal (take (length sig) buf) sig

-- `binary.BigEndian`
unfoldable pub be_value : Bytes → ℕ
be_value [] = 0
be_value (b ∷ bs) = b * 256 ^ length bs + be_value bs

-- `findOffsets`, on an anchor of 512 bytes: the LBAs of the primary and the secondary header.
unfoldable pub find_offsets : Bytes → ℕ × ℕ
find_offsets anchor = (be_value (take 8 (drop 96 anchor)), be_value (take 8 (drop 104 anchor)))

-- An int64 out of its bits.
abbrev pub to_int64 : ℕ → ℤ
to_int64 n = if ltb n 9223372036854775808 then pos n else negsuc (18446744073709551615 - n)

abbrev is_before : ℕ → ℤ → Bool
is_before anchor_start (pos a) = ltb a anchor_start
is_before anchor_start (negsuc n) = true

-- `lba2byte`, with the sector size that the device reports, if it reports one.
unfoldable pub lba2byte : Option ℕ → ℕ → Option ℕ
lba2byte none offs = none
lba2byte (some sector_size) offs =
    if not (sector_size % 512 == 0) then none else some (u64 (sector_size * offs))

module _ (accepts : ℕ → ℕ → Bool) (sector_size : Option ℕ) where
  -- A header that `detectDDF` checks: before the anchor, and with the signature.
  unfoldable pub check_header : Bytes → ℕ → ℕ → ℕ × Bool
  check_header contents alignment offs = elim (lba2byte sector_size offs) [
    | none ↦ (alignment, false)
    | some at ↦
        if not (is_before (length contents - 512) (to_int64 at))
        then (alignment, false)
        else let (alignment', got) = aligned_read accepts contents (to_int64 at) 512 alignment in
          (
            alignment',
            elim got [ none ↦ false | some buf ↦ length buf == 512 && has_sig buf ddf_header_sig ],
          )
  ]

  -- `detectDDF`
  unfoldable pub detect_ddf : Bytes → Bytes → ℕ → ℕ × Bool
  detect_ddf contents buf alignment =
      let anchor = drop (length buf - 512) buf in
      let (pri, sec) = find_offsets anchor in
      let (alignment', good) = check_header contents alignment pri in
      if not (has_sig anchor ddf_header_sig)
      then (alignment, false)
      else if not good
      then (alignment', false)
      else if sec == 18446744073709551615
      then (alignment', true)
      else check_header contents alignment' sec

  -- `DetectRaidType`, with the least size of a data disk; `none` for an error.
  unfoldable pub detect_raid_type : Bytes → ℕ → ℕ × Option RaidType
  detect_raid_type contents thr =
      let (alignment, got) = aligned_read accepts contents (negsuc 8191) 8192 0 in
      elim got [
        | none ↦ (alignment, none)
        | some buf ↦
            let (alignment', is_ddf) = detect_ddf contents buf alignment in
            if not (length buf == 8192)
            then (alignment, none)
            else if detect_imsm buf
            then (alignment, some msm)
            else if is_ddf
            then (alignment', some ddf)
            else (alignment', some (if ltb thr (length contents) then unknown else unset))
      ]

  -- `saveIMSM`
  unfoldable pub save_imsm : Bytes → ℕ → ℕ × Option Bytes
  save_imsm contents alignment =
      let (alignment', got) = aligned_read accepts contents (negsuc 1023) 1024 alignment in
      (alignment', elim got [ none ↦ none | some m ↦ if length m == 1024 then some m else none ])

  -- The last read of `saveDDF`: all from the first header.
  unfoldable pub save_from : Bytes → ℕ → ℕ → ℕ × Option Bytes
  save_from contents alignment start =
      let buf_siz = u64 (length contents + 18446744073709551616 - start) in
      let (alignment', got) = aligned_read accepts contents (to_int64 start) buf_siz alignment in
      (
        alignment',
        elim got [ none ↦ none | some m ↦ if ltb (length m) buf_siz then none else some m ],
      )

  -- `saveDDF`
  unfoldable pub save_ddf : Bytes → ℕ → ℕ × Option Bytes
  save_ddf contents alignment =
      let (alignment', got) = aligned_read accepts contents (negsuc 511) 512 alignment in
      elim got [
        | none ↦ (alignment', none)
        | some anchor ↦
            let (pri, sec) = find_offsets anchor in
            if not (length anchor == 512)
            then (alignment', none)
            else elim (lba2byte sector_size (if ltb pri sec then pri else sec)) [
              | none ↦ (alignment', none)
              | some start ↦ save_from contents alignment' start
            ]
      ]

  -- `Backup`: the metadata, or `none` for an error.
  unfoldable pub backup : RaidType → Bytes → ℕ → ℕ × Option Bytes
  backup unset contents alignment = (alignment, none)
  backup unknown contents alignment = (alignment, some [])
  backup msm contents alignment = save_imsm contents alignment
  backup ddf contents alignment = save_ddf contents alignment

  -- `Restore`: the contents, or `none` for an error.
  unfoldable pub restore : RaidType → Bytes → Bytes → ℕ → ℕ × Option Bytes
  restore kind [] contents alignment = (alignment, none)
  restore unset (b ∷ m) contents alignment = (alignment, none)
  restore unknown (b ∷ m) contents alignment = (alignment, some contents)
  restore msm (b ∷ m) contents alignment =
      aligned_write accepts contents (negsuc (length m)) (b ∷ m) alignment
  restore ddf (b ∷ m) contents alignment =
      aligned_write accepts contents (negsuc (length m)) (b ∷ m) alignment
