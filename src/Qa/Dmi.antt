-- ===== src/Qa/Dmi.antt =====
-- dmi.go: entries of the DMI tables, and firmware versions.
pub mod Laws
use gprovision.Prelude.{
  Bool, Bytes, List, [], equal, false, if◌then◌else◌, length, ltb, not, ℕ, ◌&&◌, ◌+◌, ◌==◌, ◌∷◌,
}

-- `DmiMap`: its keys are different. A key that is missing reads as the empty text.
abbrev pub DmiMap : Type 0
DmiMap = List (Bytes × Bytes)

unfoldable pub dmi_get : Bytes → DmiMap → Bytes
dmi_get k [] = []
dmi_get k ((j, v) ∷ m) = let rest = dmi_get k m in if equal j k then v else rest

-- Keys that begin with _ are comments.
unfoldable pub is_comment : Bytes → Bool
is_comment [] = false
is_comment (c ∷ k) = ltb 0 (length k) && c == b'_'

-- `DmiMap.Compare`
unfoldable pub dmi_compare : DmiMap → DmiMap → ℕ
dmi_compare [] detected = 0
dmi_compare ((k, v) ∷ required) detected =
    (if is_comment k then 0 else if equal (dmi_get k detected) v then 0 else 1)
    + dmi_compare required detected

-- The entries that `InitDetected` makes.
unfoldable pub init_dmi : DmiMap → DmiMap
init_dmi [] = []
init_dmi ((k, v) ∷ m) = let rest = init_dmi m in if is_comment k then rest else (k, []) ∷ rest

-- `Populate`, with what the tables hold for a key.
unfoldable pub populate_dmi : (Bytes → Bytes) → DmiMap → DmiMap
populate_dmi table [] = []
populate_dmi table ((k, v) ∷ m) = (k, table k) ∷ populate_dmi table m

pub record FirmwareVer : Type 0 where
  pub bios : Bytes
  pub ipmi : Bytes
  pub fru : Bytes
  pub sdr : Bytes
  pub me : Bytes

abbrev version_errors : Bytes → Bytes → ℕ
version_errors required detected =
    if not (equal required []) && not (equal required detected) then 1 else 0

-- `FirmwareVer.Compare`
unfoldable pub firmware_compare : FirmwareVer → FirmwareVer → ℕ
firmware_compare required detected =
    version_errors required.bios detected.bios
    + version_errors required.ipmi detected.ipmi
    + version_errors required.fru detected.fru
    + version_errors required.sdr detected.sdr
    + version_errors required.me detected.me
