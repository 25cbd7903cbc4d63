-- ===== src/Qa/Specs/Laws.antt =====
-- When the hardware passes.
use gprovision.Prelude.{Bool, List, get_elem?, some, true, ℕ, ◌≡◌}
use gprovision.Qa.Devices.{bdcompare}
use gprovision.Qa.Disks.{Disk, main_compare, recovery_compare}
use gprovision.Qa.Dmi.{dmi_compare}
use gprovision.Qa.Dmi.Laws.{IsVersion}
use gprovision.Qa.Specs.{Specs}

-- A config was chosen, and the disks are those of the config.
abbrev pub HasDisks : Specs → Specs → Type 0
HasDisks required detected =
    (i : ℕ) × (cfg : List Disk) × (detected.chosen_disk_cfg ≡ some i)
    × (get_elem? required.main_disk_configs i ≡ some cfg)
    × (main_compare cfg detected.detected_disks ≡ 0)

-- Every part is right; the sections for disks, devices and DMI data have no error.
pub record Meets (ram_in_tolerance : ℕ → ℕ → Bool) (required detected : Specs) : Type 0 where
  pub cpu : required.cpu_info ≡ detected.cpu_info
  pub oui_nics : required.num_oui_nics ≡ detected.num_oui_nics
  pub sequential : required.oui_nics_sequential ≡ detected.oui_nics_sequential
  pub nics : required.total_nics ≡ detected.total_nics
  pub ram : ram_in_tolerance required.ram_megs detected.ram_megs ≡ true
  pub bios : IsVersion required.firmware_ver.bios detected.firmware_ver.bios
  pub ipmi : IsVersion required.firmware_ver.ipmi detected.firmware_ver.ipmi
  pub fru : IsVersion required.firmware_ver.fru detected.firmware_ver.fru
  pub sdr : IsVersion required.firmware_ver.sdr detected.firmware_ver.sdr
  pub me : IsVersion required.firmware_ver.me detected.firmware_ver.me
  pub recovery_disk : recovery_compare required.recovery detected.recovery ≡ 0
  pub disks : HasDisks required detected
  pub usb_devices : bdcompare required.usb detected.usb ≡ 0
  pub pci_devices : bdcompare required.pci detected.pci ≡ 0
  pub dmi : dmi_compare required.dmi_matches detected.dmi_matches ≡ 0
