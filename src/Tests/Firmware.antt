-- ===== src/Tests/Firmware.antt =====
-- Device paths and boot entries at concrete inputs.
use gprovision.Prelude.{List, [], arith, refl, ◌∷◌, ◌≡◌, ◌≢◌}
use gprovision.Uefi.Boot.{BootEntryVar, BootLabel, label_fr, label_norm, label_text}
use gprovision.Uefi.DevicePath.{parse_file_path_list}
use gprovision.Uefi.DevicePath.RoundTrip.{
  IsRead, RawNode, parse_file_path_list-write_nodes, raw_header, write_nodes,
}
use gprovision.Uefi.DevicePath.Safe.{parse_file_path_list-safe}
use gprovision.Uefi.Nodes.{Node, dev_path_raw, hw_pci, parse_hw_pci, parse_node}
use gprovision.Uefi.Outcome.{at, panicked, parsed, slice}
use gprovision.Uefi.Vars.{boot_var, find_end}

-- A PCI node, and a node of a type without a parser.
abbrev pci : RawNode
pci = record { t = 1; s = 1; body = 3 ∷ 7 ∷ [] }

abbrev bbs : RawNode
bbs = record { t = 5; s = 1; body = 9 ∷ [] }

abbrev pci_node : Node
pci_node = hw_pci (raw_header pci) 3 7

abbrev bbs_node : Node
bbs_node = dev_path_raw (raw_header bbs) (9 ∷ [])

pci-IsRead : IsRead (pci, pci_node)
unfolding parse_node parse_hw_pci at
pci-IsRead = record { not_end = λ e. ground (arith, e); fits = omega arith; accepts = refl }

bbs-IsRead : IsRead (bbs, bbs_node)
unfolding parse_node
bbs-IsRead = record { not_end = λ e. ground (arith, e); fits = omega arith; accepts = refl }

parse_file_path_list-write_nodes_example :
    parse_file_path_list (write_nodes ((pci, pci_node) ∷ (bbs, bbs_node) ∷ []))
    ≡ parsed (pci_node ∷ bbs_node ∷ [])
parse_file_path_list-write_nodes_example =
    parse_file_path_list-write_nodes ((pci, pci_node) ∷ (bbs, bbs_node) ∷ [])
      (pci-IsRead, (bbs-IsRead, tt))

-- A header that is cut off.
parse_file_path_list-safe_example : parse_file_path_list (1 ∷ 1 ∷ 200 ∷ 0 ∷ []) ≢ panicked
parse_file_path_list-safe_example = parse_file_path_list-safe (1 ∷ 1 ∷ 200 ∷ 0 ∷ [])

abbrev entry_of : BootLabel → BootEntryVar
entry_of l = record { number = 0; description = label_text l }

abbrev entries : List BootEntryVar
entries = entry_of label_fr ∷ entry_of label_norm ∷ []

-- "A", U+0100, "B": the description ends before U+0100.
find_end_low_byte : find_end 9 0 (65 ∷ 0 ∷ 0 ∷ 1 ∷ 66 ∷ 0 ∷ 0 ∷ 0 ∷ []) ≡ parsed 2
unfolding find_end at
find_end_low_byte = refl

-- A variable that is cut off.
boot_var_short : boot_var (1 ∷ 0 ∷ 0 ∷ []) ≡ panicked
unfolding boot_var slice
boot_var_short = refl
