-- ===== src/Qa/Disks.antt =====
-- disks.go, and `SizeToleranceMatch` of hw/block/block.go: disks that are required or found.
pub mod Sizes
pub mod Match
use gprovision.Prelude.{
  Bool, Bytes, List, Option, [], codes, equal, false, get_elem?, if◌then◌else◌, leb, length, ltb,
  none, not, some, u64, ℕ, ◌&&◌, ◌*◌, ◌++◌, ◌+◌, ◌-◌, ◌/◌, ◌==◌, ◌∷◌,
}
use gprovision.Qa.Tally.{tally}

-- `Disk`, `RecoveryDisk` and `MainDisk`
pub record Disk : Type 0 where
  pub size : ℕ
  pub size_tolerance_pct : ℕ
  pub vendor : Bytes
  pub model : Bytes
  pub quantity : ℕ
  pub dev : Bytes

-- block.go
pub record BlockDev : Type 0 where
  pub name : Bytes
  pub dev_size : ℕ
  pub dev_model : Bytes
  pub dev_vendor : Bytes

-- `Disks.Qty`
unfoldable pub qty : List Disk → ℕ
qty [] = 0
qty (d ∷ ds) = d.quantity + qty ds

-- `abs(int64(a) - int64(b))` as a uint64
abbrev deviation : ℕ → ℕ → ℕ
deviation a b =
    let diff = u64 (a + 18446744073709551616 - b) in
    if ltb diff 9223372036854775808 then diff else 18446744073709551616 - diff

-- `SizeToleranceMatch`
unfoldable pub size_tolerance_match : ℕ → ℕ → ℕ → Bool
size_tolerance_match have want tol = leb (deviation want have) (u64 (want * tol) / 100)

-- A round of `Disk.populate`, on a device that matches.
unfoldable pub populate_match : BlockDev → Disk → Disk
populate_match b d =
    if ltb 1 (d.quantity + 1)
    then record d {
      quantity = d.quantity + 1;
      dev = d.dev ++ codes ", " ++ b.name;
      size = if b.dev_size == d.size then d.size else 0;
    }
    else record d { quantity = d.quantity + 1; dev = b.name; size = b.dev_size }

abbrev pub is_model : BlockDev → Disk → Bool
is_model b d = equal b.dev_vendor d.vendor && equal b.dev_model d.model

unfoldable pub populate_from : List BlockDev → Disk → Disk
populate_from [] d = d
populate_from (b ∷ bs) d = populate_from bs (if is_model b d then populate_match b d else d)

-- `Disk.populate`
unfoldable pub populate : List BlockDev → Disk → Disk
populate devs d = populate_from devs (record d { quantity = 0 })

-- `Disk.Compare`: the number of errors.
unfoldable pub disk_compare : Disk → Disk → ℕ
disk_compare required detected =
    if required.size == 0
    then 1
    else if not (detected.quantity == required.quantity)
    then 1
    else if detected.size == 0 && ltb 1 detected.quantity
    then 1
    else if not (size_tolerance_match detected.size required.size required.size_tolerance_pct)
    then 1
    else 0

-- `RecoveryDisk.Compare`
unfoldable pub recovery_compare : Disk → Disk → ℕ
recovery_compare required detected =
    disk_compare (if required.quantity == 0 then record required { quantity = 1 } else required)
      detected

abbrev same_disk : BlockDev → Disk → Bool
same_disk b d = equal d.model b.dev_model && equal d.vendor b.dev_vendor && d.size == b.dev_size

abbrev disk_of : BlockDev → Disk
disk_of b = record {
  size = b.dev_size;
  size_tolerance_pct = 0;
  vendor = b.dev_vendor;
  model = b.dev_model;
  quantity = 1;
  dev = [];
}

-- `FoundDisks`, from the devices.
unfoldable pub found_from : List BlockDev → List Disk → List Disk
found_from [] disks = disks
found_from (b ∷ bs) disks =
    found_from bs
      (tally (same_disk b) (λ d. record d { quantity = d.quantity + 1 }) (disk_of b) disks)

unfoldable pub found_disks : List BlockDev → List Disk
found_disks devs = found_from devs []

-- `compareMV`
abbrev pub compare_mv : Disk → Disk → Bool
compare_mv a b = equal a.model b.model && equal a.vendor b.vendor

-- The inner loop of `cfgMatch`: the first disk of those that remain that takes the disk in. `none`
-- if the loop ends.
unfoldable pub take_in : Disk → List Disk → Option (List Disk)
take_in d [] = none
take_in d (r ∷ rs) =
    let later : Option (List Disk) = elim (take_in d rs) [
      | some rs' ↦ some (r ∷ rs')
      | none ↦ none
    ] in
    if compare_mv r d
    then if ltb d.quantity r.quantity
      then some (record r { quantity = r.quantity - d.quantity } ∷ rs)
      else if r.quantity == d.quantity
      then some rs
      else later
    else later

-- The outer loop, with the disks that remain and the number of those that are not in the config.
unfoldable pub match_loop : List Disk → List Disk → ℕ → List Disk × ℕ
match_loop [] remaining not_in_cfg = (remaining, not_in_cfg)
match_loop (d ∷ ds) remaining not_in_cfg = elim (take_in d remaining) [
  | some remaining' ↦ match_loop ds remaining' not_in_cfg
  | none ↦ match_loop ds remaining (not_in_cfg + 1)
]

unfoldable pub cfg_match : List Disk → List Disk → Bool
cfg_match cfg found =
    if not (qty cfg + 1 == qty found)
    then false
    else let (remaining, not_in_cfg) = match_loop found cfg 0 in
      not_in_cfg == 1 && length remaining == 0

-- A round over `found` for a disk of the config: the last match gives size and quantity.
unfoldable pub size_from : List Disk → Disk → Disk
size_from [] md = md
size_from (d ∷ ds) md =
    size_from ds
      (if compare_mv md d then record md { size = d.size; quantity = d.quantity } else md)

-- The main disks of the config that matches; `none` where the source gives up with `Fatalf`.
unfoldable pub main_disks : List Disk → List Disk → Option (List Disk)
main_disks [] found = some []
main_disks (c ∷ cfg) found =
    let md = size_from found (record c { size = 0 }) in
    let later = main_disks cfg found in
    if md.size == 0 then none else elim later [ some mds ↦ some (md ∷ mds) | none ↦ none ]

-- `populateDisks`: the disks and the index of the config, or -1.
unfoldable pub populate_disks : ℕ → List (List Disk) → List Disk → Option (List Disk × Option ℕ)
populate_disks i [] found = some ([], none)
populate_disks i (cfg ∷ cfgs) found =
    let later = populate_disks (i + 1) cfgs found in
    if cfg_match cfg found
    then elim (main_disks cfg found) [ some mds ↦ some (mds, some i) | none ↦ none ]
    else later

-- `MainDisks.Compare`: the number of errors.
unfoldable pub main_compare : List Disk → List Disk → ℕ
main_compare [] [] = 0
main_compare [] (d ∷ ds) = 1
main_compare (r ∷ rs) [] = 1
main_compare (r ∷ rs) (d ∷ ds) =
    disk_compare r d + (if d.quantity == r.quantity then 0 else 1) + main_compare rs ds

-- `MainDiskConfigs.Compare`; the index is one that `populate_disks` returned.
unfoldable pub configs_compare : List (List Disk) → List Disk → Option ℕ → ℕ
configs_compare required detected none = 1
configs_compare required detected (some i) = elim (get_elem? required i) [
  | some cfg ↦ main_compare cfg detected
  | none ↦ 1
]
