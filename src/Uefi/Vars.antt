-- ===== src/Uefi/Vars.antt =====
-- vars.go `BootVar`: a boot entry out of the bytes of a variable.
pub mod RoundTrip
use gprovision.Prelude.{Bytes, List, [], if◌then◌else◌, length, suc, u16, zero, ℕ, ◌+◌, ◌==◌}
use gprovision.Uefi.DevicePath.{parse_file_path_list}
use gprovision.Uefi.Nodes.{Node, rest_of}
use gprovision.Uefi.Outcome.{Outcome, at, e_parse, le_value, panicked, parsed, slice, ◌>>=◌}

-- EfiLoadOption. The description is kept as its UTF-16 bytes, before `DecodeUTF16`.
pub record EfiLoadOption : Type 0 where
  pub attributes : ℕ
  pub file_path_list_length : ℕ
  pub description : Bytes
  pub file_path_list : List Node
  pub optional_data : Bytes

-- The loop that looks for the end of the description, with the rounds that are left. The index is a
-- uint16. After as many rounds as there are bytes, all indices have been seen, and the loop goes on
-- for ever, which `panicked` stands for.
unfoldable pub find_end : ℕ → ℕ → Bytes → Outcome ℕ
find_end zero i b = panicked
find_end (suc n) i b =
    let later = find_end n (u16 (i + 2)) b in do x ← at b i; if x == 0 then parsed i else later

-- An error of `ParseFilePathList` is logged, and the list is nil.
unfoldable pub or_nil : Outcome (List Node) → Outcome (List Node)
or_nil (parsed l) = parsed l
or_nil e_parse = parsed []
or_nil panicked = panicked

-- `BootVar`, without the number out of the name.
unfoldable pub boot_var : Bytes → Outcome EfiLoadOption
boot_var b = do
  attrs ← slice b 0 4
  len ← slice b 4 6
  i ← find_end (length b) 6 b
  desc ← slice b 6 i
  opt ← rest_of b (u16 (u16 (i + 2) + le_value len))
  paths ← slice b (u16 (i + 2)) (u16 (u16 (i + 2) + le_value len))
  list ← or_nil (parse_file_path_list paths)
  parsed (record {
    attributes = le_value attrs;
    file_path_list_length = le_value len;
    description = desc;
    file_path_list = list;
    optional_data = opt;
  })
