-- ===== src/History/Reports.antt =====
-- What the reports of a boot or of imaging change.
use Prim.Native.Nat.{max}
use mathlib.Core.Path.{subst}
use gprovision.History.{
  File, ImageResult, booted, chosen, find_first, find_last, imaged, load, move_or_add_front,
  new_result, reboot_hook, record_boot_state, unknown_image,
}
use gprovision.History.Counts.{
  failures, move_or_add_front-Distinct, move_or_add_front-failures, moved, total,
}
use gprovision.History.Moves.{
  Distinct, IsFound, IsFound-zero, find_first-IsFound, find_last-IsFound, has, has-pick,
}
use gprovision.Prelude.{
  Bool, Bool-cases, Bytes, List, Option, Option-cases, [], arith, equal, equal_refl, false,
  has_prefix, if◌then◌else◌, inl, inr, length, none, refl, some, true, u64, ℕ, ◌+◌, ◌==◌, ◌||◌, ◌∷◌,
  ◌≡◌,
}

-- The image whose record `RecordBootState` changes: the one named, unless it has no record and its
-- name is not one of an image; then the one of the first record.
unfoldable pub target : Bytes → Bytes → List ImageResult → Bytes
target img_prefix name [] = name
target img_prefix name (r ∷ rs) =
    if has name (r ∷ rs) || has_prefix name img_prefix then name else r.image

has_found :
    (name : Bytes) (rs : List ImageResult) (i : ℕ) → IsFound name rs (some i) → has name rs ≡ true
has_found name rs i (x, rest, e, same) = rw (has-pick i rs name e, same)

length_nonempty : (r : ImageResult) (rs : List ImageResult) → (length (r ∷ rs) == 0) ≡ false
length_nonempty r rs = ground arith

chosen_step :
    (img_prefix name : Bytes) (r : ImageResult) (rs : List ImageResult) (o : Option ℕ)
    → find_first name (r ∷ rs) ≡ o
    → IsFound name (r ∷ rs) o
    → IsFound (target img_prefix name (r ∷ rs)) (r ∷ rs) (chosen img_prefix name (r ∷ rs))
unfolding target chosen
chosen_step img_prefix name r rs (some i) e found =
    rw (target, chosen, e, has_found name (r ∷ rs) i found) found
chosen_step img_prefix name r rs none e found = elim (Bool-cases (has_prefix name img_prefix)) [
  | inl t ↦ rw (target, chosen, e, found, t) found
  | inr f ↦
      rw (target, chosen, e, found, f, length_nonempty r rs)
        (IsFound-zero r.image r rs (equal_refl r.image))
]

chosen-IsFound :
    (img_prefix name : Bytes) (rs : List ImageResult)
    → IsFound (target img_prefix name rs) rs (chosen img_prefix name rs)
unfolding target chosen find_first has
chosen-IsFound img_prefix name [] = ground arith
chosen-IsFound img_prefix name (r ∷ rs) =
    chosen_step img_prefix name r rs (find_first name (r ∷ rs)) refl
      (find_first-IsFound name (r ∷ rs))

chosen_new :
    (img_prefix name : Bytes) (rs : List ImageResult)
    → chosen img_prefix name rs ≡ none
    → target img_prefix name rs ≡ name
unfolding target chosen
chosen_new img_prefix name [] e = refl
chosen_new img_prefix name (r ∷ rs) e = ground (arith, Option-cases (find_first name (r ∷ rs)))

-- The record added is for the target.
added_lem :
    (change : ImageResult → ImageResult) (img_prefix name : Bytes) (rs : List ImageResult)
    → move_or_add_front change (chosen img_prefix name rs) (new_result name) rs
      ≡ move_or_add_front change
          (chosen img_prefix name rs)
          (new_result (target img_prefix name rs))
          rs
added_lem change img_prefix name rs = elim (Option-cases (chosen img_prefix name rs)) [
  | inl e ↦ rw (chosen_new img_prefix name rs e) refl
  | inr (i, e) ↦
      let (x, rest, p, same) =
        subst (IsFound (target img_prefix name rs) rs) e (chosen-IsFound img_prefix name rs) in
      rw
        (
          e,
          moved change i (new_result name) x rs rest p,
          moved change i (new_result (target img_prefix name rs)) x rs rest p,
        )
        refl
]

booted_image :
    (success : Bool) (severity : ℕ) (note : Bytes) (r : ImageResult)
    → (booted success severity note r).image ≡ r.image
unfolding booted
booted_image success severity note r = refl

imaged_image :
    (success : Bool) (note : Bytes) (r : ImageResult) → (imaged success note r).image ≡ r.image
unfolding imaged
imaged_image success note r = refl

booted_counts :
    (success : Bool) (severity : ℕ) (note : Bytes) (r : ImageResult)
    → total (booted success severity note r)
      ≡ u64 (total r + (if success then 0 else max 1 severity))
unfolding booted
booted_counts success severity note r = ground arith

imaged_counts :
    (success : Bool) (note : Bytes) (r : ImageResult)
    → total (imaged success note r) ≡ u64 (total r + (if success then 0 else 1))
unfolding imaged
imaged_counts success note r = ground arith

-- `RecordBootState` adds to the failures of the image it reports on the severity, at least one, and
-- nothing on success; the failures of every other image stay as they were loaded, and each image
-- still has at most one record. Sums are of 64 bits.
pub record_boot_state-failures :
    (img_prefix : Bytes) (file : File) (name note : Bytes) (success : Bool) (severity : ℕ)
    (rs : List ImageResult) (n : Bytes)
    → Distinct (load file rs).1
    → let now = (load file rs).1 in
      let after = record_boot_state img_prefix file name success severity note rs in
      (failures n after ≡ (
        if equal (target img_prefix name now) n
        then u64 (failures n now + (if success then 0 else max 1 severity))
        else failures n now))
      × Distinct after
unfolding record_boot_state
record_boot_state-failures img_prefix file name note success severity rs n d =
    let now = (load file rs).1 in
    let change = booted success severity note in
    let m = target img_prefix name now in
    let o = chosen img_prefix name now in
    let found = chosen-IsFound img_prefix name now in
    rw (added_lem change img_prefix name now) (
      move_or_add_front-failures change o m n (if success then 0 else max 1 severity) now d found
          (λ r. booted_image success severity note r) (λ r. booted_counts success severity note r),
      move_or_add_front-Distinct change o m now d found (λ r. booted_image success severity note r),
    )

-- `RebootHook` adds one failure to the image of the disk tag, or to the unknown image if there is no
-- tag, and nothing on success; the failures of every other image stay, and each image still has at
-- most one record. Sums are of 64 bits.
pub reboot_hook-failures :
    (tag note : Bytes) (success : Bool) (rs : List ImageResult) (n : Bytes)
    → Distinct rs
    → let name = if length tag == 0 then unknown_image else tag in
      let after = reboot_hook tag success note rs in
      (failures n after ≡ (
        if equal name n then u64 (failures n rs + (if success then 0 else 1)) else failures n rs))
      × Distinct after
unfolding reboot_hook
reboot_hook-failures tag note success rs n d =
    let name = if length tag == 0 then unknown_image else tag in
    let change = imaged success note in
    let o = find_last name rs in
    let found = find_last-IsFound name rs in
    (
      move_or_add_front-failures change o name n (if success then 0 else 1) rs d found
          (λ r. imaged_image success note r) (λ r. imaged_counts success note r),
      move_or_add_front-Distinct change o name rs d found (λ r. imaged_image success note r),
    )
