-- ===== src/Raid/Arrays.antt =====
-- array.go `FindArrays`: disks sorted into arrays by the type of their metadata and their size.
pub mod Laws
use gprovision.Prelude.{
  Bool, List, [], false, if◌then◌else◌, length, not, suc, true, zero, ℕ, ◌&&◌, ◌||◌, ◌∷◌,
}
use gprovision.Raid.Metadata.{RaidType, ddf, msm, unknown, unset}

-- What the search reads of a device, and whether it is in an array (`InArray`).
pub record Member : Type 0 where
  pub id : ℕ
  pub kind : RaidType
  pub size : ℕ
  pub in_array : Bool

unfoldable pub same_kind : RaidType → RaidType → Bool
same_kind unset unset = true
same_kind unknown unknown = true
same_kind msm msm = true
same_kind ddf ddf = true
same_kind a b = false

abbrev is_unset : RaidType → Bool
is_unset unset = true
is_unset kind = false

abbrev mark : Member → Member
mark d = record d { in_array = true }

-- The sizes are compared by floating point with a tolerance of 5%.
module _ (size_match : ℕ → ℕ → Bool) where
  abbrev joins : Member → Member → Bool
  joins d e = not e.in_array && (same_kind e.kind d.kind && size_match d.size e.size)

  -- The inner loop: the devices that the array of `d` takes, and all that follow with their marks.
  unfoldable pub collect_from : Member → List Member → List Member × List Member
  collect_from d [] = ([], [])
  collect_from d (e ∷ es) =
      let (taken, marked) = collect_from d es in
      if joins d e then (mark e ∷ taken, mark e ∷ marked) else (taken, e ∷ marked)

  -- The outer loop, with the devices that are left. `NewArray` puts the first device in its array.
  unfoldable pub find_from : ℕ → List Member → List (List Member)
  find_from zero ds = []
  find_from (suc n) [] = []
  find_from (suc n) (d ∷ ds) =
      let (taken, marked) = collect_from d ds in
      let skip = find_from n ds in
      let later = find_from n marked in
      if d.in_array || is_unset d.kind then skip else (mark d ∷ taken) ∷ later

  -- `FindArrays`; there are as many rounds as devices.
  unfoldable pub find_arrays : List Member → List (List Member)
  find_arrays ds = find_from (length ds) ds
