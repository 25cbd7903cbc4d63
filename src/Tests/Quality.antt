-- ===== src/Tests/Quality.antt =====
-- The checks of the hardware at concrete inputs.
use gprovision.Prelude.{
  All, Bool, Bytes, List, [], arith, codes, equal, false, if◌then◌else◌, refl, some, true, ℕ, ◌%◌,
  ◌*◌, ◌+◌, ◌↔◌, ◌∷◌, ◌≡◌, ◌≤◌,
}
use gprovision.Qa.Devices.{
  BusDevice, DevRead, bdcompare, bdpopulate, device_errors, failed, find_device, ids,
}
use gprovision.Qa.Devices.Counts.{bdcompare-bdpopulate, count_reads}
use gprovision.Qa.Disks.{Disk, cfg_match, match_loop, qty, size_tolerance_match, take_in}
use gprovision.Qa.Disks.Match.{cfg_match-total, total}
use gprovision.Qa.Disks.Sizes.{size_tolerance_match_iff}
use gprovision.Qa.Dmi.{DmiMap, FirmwareVer}
use gprovision.Qa.Specs.{CpuInfo, Specs}
use gprovision.Qa.Tally.{tally}

abbrev path_only : Bytes → ℕ → Bytes
path_only path c = path

abbrev card : BusDevice
card = record {
  description = codes "nic";
  vendor = 32902;
  device = 5409;
  class = 131072;
  quantity = 2;
  dev = codes "any";
}

abbrev bus : List (Bytes × DevRead)
bus =
    (codes "00", ids 32902 5409 131072)
    ∷ (codes "01", failed)
    ∷ (codes "02", ids 32902 5409 131072)
    ∷ []

both_found : bdcompare (card ∷ []) (bdpopulate path_only bus []) ≡ 0
unfolding bdcompare device_errors find_device bdpopulate tally
both_found = refl

bdcompare-bdpopulate_example :
    (bdcompare (card ∷ []) (bdpopulate path_only bus []) ≡ 0)
    ↔ All
        (λ r. count_reads r.vendor r.device r.class bus % 18446744073709551616 ≡ r.quantity)
        (card ∷ [])
bdcompare-bdpopulate_example = bdcompare-bdpopulate path_only (card ∷ []) bus (omega arith, tt)

abbrev disk_of_size : ℕ → ℕ → Disk
disk_of_size size n = record {
  size = size;
  size_tolerance_pct = 5;
  vendor = codes "ATA";
  model = codes "M1";
  quantity = n;
  dev = [];
}

abbrev two_disks : List Disk
two_disks = disk_of_size 1000 2 ∷ []

abbrev three_found : List Disk
three_found = record (disk_of_size 3000 1) { model = codes "R1" } ∷ disk_of_size 1000 2 ∷ []

matches : cfg_match two_disks three_found ≡ true
unfolding cfg_match match_loop take_in qty equal
matches = refl

cfg_match-total_example :
    (extra : Disk) × (extra.quantity ≡ 1)
    × ((p : Bytes → Bytes → Bool)
        → total p three_found ≡ total p two_disks + (if p extra.vendor extra.model then 1 else 0))
cfg_match-total_example = cfg_match-total two_disks three_found matches

size_tolerance_match_iff_example :
    (size_tolerance_match 950 1000 5 ≡ true)
    ↔ ((100 * 950 ≤ 100 * 1000 + 1000 * 5) × (100 * 1000 ≤ 100 * 950 + 1000 * 5))
size_tolerance_match_iff_example =
    size_tolerance_match_iff 950 1000 5 (omega arith) (omega arith) (omega arith)

abbrev tables : Bytes → Bytes
tables k = codes "Acme"

abbrev wanted_dmi : DmiMap
wanted_dmi = (codes "baseboard-manufacturer", codes "Acme") ∷ []

abbrev some_cpu : CpuInfo
some_cpu = record { cpu_model = codes "X"; cores = 4; sockets = 1; errors = false }

abbrev some_firmware : FirmwareVer
some_firmware = record {
  bios = codes "1.0";
  ipmi = codes "1.0";
  fru = codes "1.0";
  sdr = codes "1.0";
  me = codes "1.0";
}

abbrev machine : Specs
machine = record {
  cpu_info = some_cpu;
  ram_megs = 8192;
  recovery = disk_of_size 2000 1;
  main_disk_configs = two_disks ∷ [];
  chosen_disk_cfg = some 0;
  detected_disks = two_disks;
  num_oui_nics = 2;
  oui_nics_sequential = true;
  total_nics = 2;
  firmware_ver = some_firmware;
  pci = card ∷ [];
  usb = [];
  dmi_matches = wanted_dmi;
}
