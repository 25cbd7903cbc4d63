-- ===== src/Uefi/Nodes.antt =====
-- efiDppHardware.go, efiDppACPI.go, efiDppMessage.go, efiDppMedia.go: the parsers of the nodes of a
-- device path, after the common header.
use gprovision.Prelude.{
  Bool, Bytes, [], if◌then◌else◌, length, ltb, not, ℕ, ◌%◌, ◌&&◌, ◌+◌, ◌-◌, ◌==◌, ◌∷◌,
}
use gprovision.Uefi.Outcome.{Outcome, at, e_parse, le_value, parsed, slice, ◌>>=◌}

pub record Header : Type 0 where
  pub proto_type : ℕ
  pub proto_sub_type : ℕ
  pub len : ℕ  -- `Length`

pub data Node : Type 0 where
  hw_pci : Header → ℕ → ℕ → Node
  acpi_dev_path : Header → Bytes → Bytes → Node
  acpi_ex_dev_path : Header → Bytes → Bytes → Bytes → Bytes → Bytes → Bytes → Node
  msg_atapi : Header → Bool → Bool → ℕ → Node
  msg_mac : Header → Bytes → ℕ → Node
  media_hdd : Header → ℕ → ℕ → ℕ → Bytes → ℕ → ℕ → Node
  -- The path's UTF-16 bytes, before `DecodeUTF16`.
  media_file_path : Header → Bytes → Node
  media_piwgfv : Header → Bytes → Node
  media_piwgff : Header → Bytes → Node
  dev_path_raw : Header → Bytes → Node

unfoldable pub parse_hw_pci : Header → Bytes → Outcome Node
parse_hw_pci h b =
    if not (length b == 2) then e_parse else do f ← at b 0; d ← at b 1; parsed (hw_pci h f d)

unfoldable pub parse_acpi_dev_path : Header → Bytes → Outcome Node
parse_acpi_dev_path h b =
    if not (h.len == 12)
    then e_parse
    else do hid ← slice b 0 4; uid ← slice b 4 8; parsed (acpi_dev_path h hid uid)

-- `readToNull`
unfoldable pub read_to_null : Bytes → Outcome Bytes
read_to_null [] = e_parse
read_to_null (c ∷ b) =
    let rest = read_to_null b in if c == 0 then parsed [] else do s ← rest; parsed (c ∷ s)

-- `b[n:]`
unfoldable pub rest_of : Bytes → ℕ → Outcome Bytes
rest_of b n = slice b n (length b)

unfoldable pub parse_acpi_strings : Header → Bytes → Bytes → Bytes → Bytes → Outcome Node
parse_acpi_strings h hid uid cid b = do
  hid_str ← read_to_null b
  b1 ← rest_of b (length hid_str + 1)
  uid_str ← read_to_null b1
  b2 ← rest_of b1 (length uid_str + 1)
  cid_str ← read_to_null b2
  parsed (acpi_ex_dev_path h hid uid cid hid_str uid_str cid_str)

unfoldable pub parse_acpi_ex_dev_path : Header → Bytes → Outcome Node
parse_acpi_ex_dev_path h b = if ltb h.len 19 then e_parse else do
  hid ← slice b 0 4
  uid ← slice b 4 8
  cid ← slice b 8 12
  rest ← rest_of b 12
  parse_acpi_strings h hid uid cid rest

unfoldable pub parse_msg_atapi : Header → Bytes → Outcome Node
parse_msg_atapi h b = if not (h.len == 8) then e_parse else do
  primary ← at b 0
  master ← at b 1
  lun ← slice b 2 4
  parsed (msg_atapi h (primary == 0) (master == 0) (le_value lun))

unfoldable pub parse_msg_mac : Header → Bytes → Outcome Node
parse_msg_mac h b =
    if not (h.len == 37)
    then e_parse
    else do if_type ← at b 32; mac ← slice b 0 32; parsed (msg_mac h mac if_type)

unfoldable pub parse_media_hdd : Header → Bytes → Outcome Node
parse_media_hdd h b = if ltb (length b) 38 then e_parse else do
  part_num ← slice b 0 4
  part_start ← slice b 4 12
  part_size ← slice b 12 20
  part_fmt ← at b 36
  sig_type ← at b 37
  part_sig ← slice b 20 36
  parsed (
      media_hdd h (le_value part_num) (le_value part_start) (le_value part_size) part_sig part_fmt
        sig_type)

-- `DecodeUTF16` refuses an odd length.
unfoldable pub parse_media_file_path : Header → Bytes → Outcome Node
parse_media_file_path h b = if ltb (length b) (h.len - 4) then e_parse else do
  path ← slice b 0 (h.len - 4)
  if length path % 2 == 0 then parsed (media_file_path h path) else e_parse

unfoldable pub parse_media_piwgfv : Header → Bytes → Outcome Node
parse_media_piwgfv h b = if not (h.len == 20) then e_parse else parsed (media_piwgfv h b)

unfoldable pub parse_media_piwgff : Header → Bytes → Outcome Node
parse_media_piwgff h b = if not (h.len == 20) then e_parse else parsed (media_piwgff h b)

-- The two switches of `ParseFilePathList` on a node that is not the end.
unfoldable pub parse_node : Header → Bytes → Outcome Node
parse_node h b =
    let t = h.proto_type in
    let s = h.proto_sub_type in
    if t == 1 && s == 1
    then parse_hw_pci h b
    else if t == 2 && s == 1
    then parse_acpi_dev_path h b
    else if t == 2 && s == 2
    then parse_acpi_ex_dev_path h b
    else if t == 3 && s == 1
    then parse_msg_atapi h b
    else if t == 3 && s == 11
    then parse_msg_mac h b
    else if t == 4 && s == 1
    then parse_media_hdd h b
    else if t == 4 && s == 4
    then parse_media_file_path h b
    else if t == 4 && s == 6
    then parse_media_piwgff h b
    else if t == 4 && s == 7
    then parse_media_piwgfv h b
    else parsed (dev_path_raw h b)
