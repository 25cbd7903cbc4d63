-- ===== src/Tests/Disks.antt =====
-- Reads, writes and RAID metadata at concrete inputs.
use gprovision.Prelude.{
  All, Bool, Bytes, List, [], arith, drop, false, length, refl, replicate, some, take, true, ℕ,
  ◌++◌, ◌-◌, ◌<◌, ◌==◌, ◌∷◌, ◌≡◌,
}
use gprovision.Raid.Align.{align, align_pos, pos, position}
use gprovision.Raid.Arrays.{Member, find_arrays}
use gprovision.Raid.Arrays.Laws.{IsArray, count_all, count_free, find_arrays_lem}
use gprovision.Raid.Device.{
  aligned_read, aligned_write, raw_aligned_read, read_end, read_loop, seek, try_read, write_back,
}
use gprovision.Raid.Device.Writes.{aligned_write_lem, replaced}
use gprovision.Raid.Metadata.{RaidType, backup, msm, restore, save_imsm, unset}
use gprovision.Raid.Metadata.RoundTrip.{restore-backup}

abbrev any_access : ℕ → ℕ → Bool
any_access begin len = true

abbrev disk : Bytes
disk = replicate 1536 0

abbrev erased_disk : Bytes
erased_disk = replicate 1536 7

abbrev part : Bytes
part = replicate 3 0

reads_part : (aligned_read any_access disk (pos 10) 3 512).1 ≡ some part
unfolding aligned_read raw_aligned_read read_loop try_read align align_pos seek read_end
reads_part = refl

abbrev written : Bytes
written = replicate 10 0 ++ (1 ∷ 2 ∷ []) ++ replicate 1524 0

writes_part : (aligned_write any_access disk (pos 10) (1 ∷ 2 ∷ []) 512).1 ≡ some written
unfolding aligned_write write_back raw_aligned_read read_loop try_read align align_pos seek read_end
writes_part = refl

aligned_write_lem_example : written ≡ replaced (position (length disk) (pos 10)) (1 ∷ 2 ∷ []) disk
aligned_write_lem_example = aligned_write_lem any_access disk (pos 10) (1 ∷ 2 ∷ []) 512 writes_part

abbrev metadata : Bytes
metadata = replicate 1024 0

saved : (backup any_access (some 512) msm disk 512).1 ≡ some metadata
unfolding backup save_imsm aligned_read raw_aligned_read read_loop try_read align align_pos seek
    read_end
saved = refl

abbrev put_back : Bytes
put_back = replicate 512 7 ++ replicate 1024 0

restored : (restore any_access (some 512) msm metadata erased_disk 512).1 ≡ some put_back
unfolding restore aligned_write write_back raw_aligned_read read_loop try_read align align_pos seek
    read_end
restored = refl

restore-backup_example :
    (0 < length metadata)
    × (put_back
        ≡ take (length disk - length metadata) erased_disk
          ++ drop (length disk - length metadata) disk)
restore-backup_example =
    restore-backup any_access (some 512) msm disk erased_disk 512 512 metadata (omega arith) refl
      saved restored

abbrev member : ℕ → RaidType → Member
member i kind = record { id = i; kind = kind; size = 100; in_array = false }

abbrev members : List Member
members = member 0 msm ∷ member 1 unset ∷ member 2 msm ∷ []

find_arrays_lem_example :
    ((p : ℕ → Bool) → count_all p (find_arrays (λ a b. a == b) members) ≡ count_free p members)
    × All (IsArray (λ a b. a == b)) (find_arrays (λ a b. a == b) members)
find_arrays_lem_example = find_arrays_lem (λ a b. a == b) members
