-- ===== src/Tests/Updates.antt =====
-- Choice of updates at concrete inputs.
use gprovision.History.{ImageResult, new_result}
use gprovision.Prelude.{Bool, Bytes, List, [], codes, true, ◌∷◌}

abbrev upd_a : Bytes
upd_a = codes "/mnt/a.upd"

abbrev upd_b : Bytes
upd_b = codes "/mnt/b.upd"

-- A history in which the first image failed too often.
abbrev bad_a : List ImageResult
bad_a = record (new_result upd_a) { boot_failures = 6 } ∷ new_result upd_b ∷ []

abbrev any_tag : Bytes → Bytes
any_tag u = u

abbrev all_extract : Bytes → Bool
all_extract u = true
