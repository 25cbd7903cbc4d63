-- ===== src/History.antt =====
-- pkg/recovery/history/history.go: how often each image failed. A `uint` has 64 bits. The pointers
-- in `results` are all different, as the JSON decoder makes each, so a record is named by its place.
pub mod Moves
pub mod Counts
pub mod Reports
use gprovision.Prelude.{
  Bool, Bytes, List, Option, [], codes, equal, false, has_prefix, if◌then◌else◌, leb, length, ltb,
  none, some, suc, true, u64, zero, ℕ, ◌++◌, ◌+◌, ◌==◌, ◌||◌, ◌∷◌,
}

abbrev pub max_failures_per_img : ℕ
max_failures_per_img = 5

pub record ImageResult : Type 0 where
  pub image : Bytes
  pub imaging_attempts : ℕ
  pub imaging_failures : ℕ
  pub boot_attempts : ℕ
  pub boot_failures : ℕ
  pub notes : List Bytes

-- What `Load` meets on disk; the JSON coding of a list is left out.
pub data File : Type 0 where
  missing : File
  stat_error : File
  unreadable : File
  bad_json : File
  content : List ImageResult → File

-- `Load`: its answer and the new `results`.
unfoldable pub load : File → List ImageResult → Bool × List ImageResult
load missing rs = (true, rs)
load stat_error rs = (false, rs)
load unreadable rs = (false, rs)
load bad_json rs = (false, rs)
load (content new) rs = (false, new)

-- `Check`
unfoldable pub check : Bytes → List ImageResult → Bool
check name [] = true
check name (r ∷ rs) =
    let rest = check name rs in
    if equal r.image name
    then leb (u64 (r.imaging_failures + r.boot_failures)) max_failures_per_img
    else rest

-- The place of the first record for the image, as in `RecordBootState`.
unfoldable pub find_first : Bytes → List ImageResult → Option ℕ
find_first name [] = none
find_first name (r ∷ rs) =
    let later : Option ℕ = elim (find_first name rs) [ none ↦ none | some i ↦ some (suc i) ] in
    if equal r.image name then some 0 else later

-- The place of the last record for the image, as in `RebootHook`.
unfoldable pub find_last : Bytes → List ImageResult → Option ℕ
find_last name [] = none
find_last name (r ∷ rs) = elim (find_last name rs) [
  | some i ↦ some (suc i)
  | none ↦ if equal r.image name then some 0 else none
]

-- The record at a place and the list without it.
unfoldable pub pick : ℕ → List ImageResult → Option (ImageResult × List ImageResult)
pick i [] = none
pick zero (r ∷ rs) = some (r, rs)
pick (suc i) (r ∷ rs) = elim (pick i rs) [ none ↦ none | some (x, rest) ↦ some (x, r ∷ rest) ]

-- `moveOrAddFront` of the record that `change` has been applied to: the one at a place, or a new one.
unfoldable pub move_or_add_front :
    (ImageResult → ImageResult) → Option ℕ → ImageResult → List ImageResult → List ImageResult
move_or_add_front change none new rs = change new ∷ rs
move_or_add_front change (some i) new rs = elim (pick i rs) [
  | none ↦ change new ∷ rs
  | some (x, rest) ↦ change x ∷ rest
]

-- `new(ImageResult)` with its name.
abbrev pub new_result : Bytes → ImageResult
new_result name = record {
  image = name;
  imaging_attempts = 0;
  imaging_failures = 0;
  boot_attempts = 0;
  boot_failures = 0;
  notes = [];
}

-- The changes to the record in `RecordBootState`.
unfoldable pub booted : Bool → ℕ → Bytes → ImageResult → ImageResult
booted success severity note r =
    let weight = if ltb severity 1 then 1 else severity in
    record r {
      boot_attempts = u64 (r.boot_attempts + 1);
      boot_failures = if success then r.boot_failures else u64 (r.boot_failures + weight);
      notes = r.notes ++ note ∷ [];
    }

-- The changes to the record in `RebootHook`.
unfoldable pub imaged : Bool → Bytes → ImageResult → ImageResult
imaged success note r = record r {
  imaging_attempts = u64 (r.imaging_attempts + 1);
  imaging_failures = if success then r.imaging_failures else u64 (r.imaging_failures + 1);
  notes = r.notes ++ note ∷ [];
}

-- Which record `RecordBootState` changes: `none` is a new one.
unfoldable pub chosen : Bytes → Bytes → List ImageResult → Option ℕ
chosen img_prefix name rs = elim (find_first name rs) [
  | some i ↦ some i
  | none ↦ if has_prefix name img_prefix || length rs == 0 then none else some 0
]

-- `RecordBootState` with the note that it makes from time and severity; the answer is what is kept
-- and written.
unfoldable pub record_boot_state :
    Bytes → File → Bytes → Bool → ℕ → Bytes → List ImageResult → List ImageResult
record_boot_state img_prefix file name success severity note rs =
    let now = (load file rs).1 in
    move_or_add_front (booted success severity note) (chosen img_prefix name now) (new_result name)
      now

-- "ERROR UNKNOWN IMAGE"
abbrev pub unknown_image : Bytes
unknown_image = codes "ERROR UNKNOWN IMAGE"

-- `RebootHook`; `tag` is what disktag's `Get` returns.
unfoldable pub reboot_hook : Bytes → Bool → Bytes → List ImageResult → List ImageResult
reboot_hook tag success note rs =
    let name = if length tag == 0 then unknown_image else tag in
    move_or_add_front (imaged success note) (find_last name rs) (new_result name) rs
