-- ===== src/Qa/Devices.antt =====
-- devices.go: the PCI and USB devices that are required, and those that are found.
pub mod Counts
use gprovision.Prelude.{
  Bool, Bytes, List, Option, [], if◌then◌else◌, none, some, u64, ℕ, ◌&&◌, ◌+◌, ◌==◌, ◌∷◌,
}
use gprovision.Qa.Tally.{tally}

pub record BusDevice : Type 0 where
  pub description : Bytes
  pub vendor : ℕ
  pub device : ℕ
  pub class : ℕ
  pub quantity : ℕ
  pub dev : Bytes

-- What `readDev` returns for a path: the IDs, or an error (`errSkipThisDevice` among them).
pub data DevRead : Type 0 where
  ids : ℕ → ℕ → ℕ → DevRead
  failed : DevRead

abbrev pub is_device : ℕ → ℕ → ℕ → BusDevice → Bool
is_device v d c b = b.vendor == v && b.device == d && b.class == c

abbrev pub count_device : BusDevice → BusDevice
count_device b = record b { quantity = u64 (b.quantity + 1) }

-- The description comes out of udev's data or the table of PCI classes.
module _ (describe : Bytes → ℕ → Bytes) where
  abbrev new_device : Bytes → ℕ → ℕ → ℕ → BusDevice
  new_device path v d c = record {
    description = describe path c;
    vendor = v;
    device = d;
    class = c;
    quantity = 1;
    dev = path;
  }

  -- `bdpopulate`, from the paths and what is read there.
  unfoldable pub bdpopulate : List (Bytes × DevRead) → List BusDevice → List BusDevice
  bdpopulate [] l = l
  bdpopulate ((path, failed) ∷ devs) l = bdpopulate devs l
  bdpopulate ((path, ids v d c) ∷ devs) l =
      bdpopulate devs (tally (is_device v d c) count_device (new_device path v d c) l)

-- The first match among the devices that are found.
unfoldable pub find_device : ℕ → ℕ → ℕ → List BusDevice → Option BusDevice
find_device v d c [] = none
find_device v d c (b ∷ l) =
    let rest = find_device v d c l in if is_device v d c b then some b else rest

-- One round of `bdcompare`.
unfoldable pub device_errors : BusDevice → List BusDevice → ℕ
device_errors r detected = elim (find_device r.vendor r.device r.class detected) [
  | some d ↦ if d.quantity == r.quantity then 0 else 1
  | none ↦ if r.quantity == 0 then 0 else 1
]

unfoldable pub bdcompare : List BusDevice → List BusDevice → ℕ
bdcompare [] detected = 0
bdcompare (r ∷ required) detected = device_errors r detected + bdcompare required detected
