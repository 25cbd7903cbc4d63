-- ===== src/Qa/Specs.antt =====
-- qa.go: all that a platform must have, and the comparison with what is found.
pub mod Laws
use gprovision.Prelude.{
  Bool, Bytes, List, Option, [], equal, false, if◌then◌else◌, ltb, not, true, ℕ, ◌&&◌, ◌+◌, ◌==◌,
  ◌||◌, ◌∷◌,
}
use gprovision.Qa.Devices.{BusDevice, bdcompare}
use gprovision.Qa.Disks.{Disk, configs_compare, recovery_compare}
use gprovision.Qa.Dmi.{DmiMap, FirmwareVer, dmi_compare, firmware_compare}

pub record CpuInfo : Type 0 where
  pub cpu_model : Bytes
  pub cores : ℕ
  pub sockets : ℕ
  pub errors : Bool

pub record Specs : Type 0 where
  pub cpu_info : CpuInfo
  pub ram_megs : ℕ
  pub recovery : Disk
  pub main_disk_configs : List (List Disk)
  pub chosen_disk_cfg : Option ℕ
  pub detected_disks : List Disk  -- `mainDisks`
  pub num_oui_nics : ℕ
  pub oui_nics_sequential : Bool
  pub total_nics : ℕ
  pub firmware_ver : FirmwareVer
  pub pci : List BusDevice
  pub usb : List BusDevice
  pub dmi_matches : DmiMap

unfoldable pub same_bool : Bool → Bool → Bool
same_bool true b = b
same_bool false b = not b

abbrev same_cpu : CpuInfo → CpuInfo → Bool
same_cpu a b =
    equal a.cpu_model b.cpu_model
    && a.cores == b.cores
    && a.sockets == b.sockets
    && same_bool a.errors b.errors

-- `logNE`
abbrev log_ne : Bool → ℕ
log_ne same = if same then 0 else 1

-- `Specs.Compare`: the number of problems. `RamMegs.Compare` computes with floating point; its test
-- is a parameter.
module _ (ram_in_tolerance : ℕ → ℕ → Bool) where
  unfoldable pub specs_compare : Specs → Specs → ℕ
  specs_compare required detected =
      log_ne (same_cpu required.cpu_info detected.cpu_info)
      + log_ne (required.num_oui_nics == detected.num_oui_nics)
      + log_ne (same_bool required.oui_nics_sequential detected.oui_nics_sequential)
      + log_ne (required.total_nics == detected.total_nics)
      + log_ne (ram_in_tolerance required.ram_megs detected.ram_megs)
      + firmware_compare required.firmware_ver detected.firmware_ver
      + recovery_compare required.recovery detected.recovery
      + configs_compare required.main_disk_configs detected.detected_disks detected.chosen_disk_cfg
      + bdcompare required.usb detected.usb
      + bdcompare required.pci detected.pci
      + dmi_compare required.dmi_matches detected.dmi_matches

abbrev empty_configs : List (List Disk) → ℕ
empty_configs [] = 0
empty_configs ([] ∷ cfgs) = 1 + empty_configs cfgs
empty_configs ((d ∷ cfg) ∷ cfgs) = empty_configs cfgs

abbrev filled_configs : List (List Disk) → ℕ
filled_configs [] = 0
filled_configs ([] ∷ cfgs) = filled_configs cfgs
filled_configs ((d ∷ cfg) ∷ cfgs) = 1 + filled_configs cfgs

-- `SanityCheck`; `false` where the source gives up with `Fatalf`.
unfoldable pub sanity_check : Specs → Bool
sanity_check r =
    if ltb 0 (empty_configs r.main_disk_configs) || filled_configs r.main_disk_configs == 0
    then false
    else if ltb r.recovery.size 1073741824
    then false
    else true
