-- ===== src/Uefi/Vars/RoundTrip.antt =====
-- `BootVar` reads what the UEFI specification lays out.
use gprovision.Prelude.{Bytes, List, [], length, ℕ, ◌%◌, ◌++◌, ◌/◌, ◌∷◌}
use gprovision.Uefi.Nodes.{Node}
use gprovision.Uefi.Vars.{EfiLoadOption}

-- A description: code units, low byte first.
unfoldable pub write_units : List (ℕ × ℕ) → Bytes
write_units [] = []
write_units ((lo, hi) ∷ us) = lo ∷ hi ∷ write_units us

-- What follows the six bytes at the front.
abbrev pub write_tail : List (ℕ × ℕ) → Bytes → Bytes → Bytes
write_tail us paths opt = write_units us ++ 0 ∷ 0 ∷ (paths ++ opt)

abbrev pub write_option : ℕ → List (ℕ × ℕ) → Bytes → Bytes → Bytes
write_option attrs us paths opt =
    attrs % 256
    ∷ attrs / 256 % 256
    ∷ attrs / 65536 % 256
    ∷ attrs / 16777216
    ∷ length paths % 256
    ∷ length paths / 256
    ∷ write_tail us paths opt

abbrev pub option_of : ℕ → List (ℕ × ℕ) → Bytes → List Node → Bytes → EfiLoadOption
option_of attrs us paths list opt = record {
  attributes = attrs;
  file_path_list_length = length paths;
  description = write_units us;
  file_path_list = list;
  optional_data = opt;
}
