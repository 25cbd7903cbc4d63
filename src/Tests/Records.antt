-- ===== src/Tests/Records.antt =====
-- Image histories at concrete inputs.
use Prim.Native.Nat.{max}
use gprovision.History.{
  ImageResult, booted, check, chosen, content, find_first, load, move_or_add_front, new_result,
  pick, record_boot_state,
}
use gprovision.History.Counts.{failures}
use gprovision.History.Moves.{Distinct, has}
use gprovision.History.Reports.{record_boot_state-failures, target}
use gprovision.Prelude.{
  Bytes, List, [], codes, equal, false, if◌then◌else◌, refl, true, u64, ◌+◌, ◌∷◌, ◌≡◌,
}

abbrev img_a : Bytes
img_a = codes "PRODUCT.Os.a"

abbrev img_b : Bytes
img_b = codes "PRODUCT.Os.b"

abbrev history : List ImageResult
history = new_result img_a ∷ record (new_result img_b) { boot_failures = 4 } ∷ []

history-Distinct : Distinct history
unfolding Distinct has equal
history-Distinct = (refl, (refl, tt))

loaded-Distinct : Distinct (load (content history) []).1
unfolding load
loaded-Distinct = history-Distinct

abbrev after_boot : List ImageResult
after_boot = record_boot_state (codes "PRODUCT") (content history) img_b false 0 [] []

record_boot_state-failures_example :
    (failures img_b after_boot ≡ (
      if equal (target (codes "PRODUCT") img_b (load (content history) []).1) img_b
      then u64 (failures img_b (load (content history) []).1 + (if false then 0 else max 1 0))
      else failures img_b (load (content history) []).1))
    × Distinct after_boot
record_boot_state-failures_example =
    record_boot_state-failures (codes "PRODUCT") (content history) img_b [] false 0 [] img_b
      loaded-Distinct

five_failures : check img_b after_boot ≡ true
unfolding record_boot_state load move_or_add_front chosen find_first pick booted check equal
five_failures = refl
