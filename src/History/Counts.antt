-- ===== src/History/Counts.antt =====
-- The number of failures of each image.
use mathlib.Core.Path.{subst}
use gprovision.History.{
  ImageResult, check, max_failures_per_img, move_or_add_front, new_result, pick,
}
use gprovision.History.Moves.{Distinct, IsFound, has, has-pick, pick-Distinct, pick-suc}
use gprovision.Prelude.{
  Bool-cases, Bytes, List, Option, [], arith, equal, equal_iff, false, if◌then◌else◌, inl, inr,
  none, refl, some, suc, true, u64, zero, ℕ, ◌+◌, ◌<◌, ◌||◌, ◌↔◌, ◌∷◌, ◌≡◌,
}

abbrev pub total : ImageResult → ℕ
total r = u64 (r.imaging_failures + r.boot_failures)

-- The failures recorded for an image: zero if it has no record.
unfoldable pub failures : Bytes → List ImageResult → ℕ
failures name [] = 0
failures name (r ∷ rs) = let rest = failures name rs in if equal r.image name then total r else rest

-- `Check` refuses an image exactly if more failures than the maximum are recorded for it.
pub check_iff :
    (name : Bytes) (rs : List ImageResult)
    → (check name rs ≡ false) ↔ (max_failures_per_img < failures name rs)
unfolding check failures
check_iff name [] = ground arith
check_iff name (r ∷ rs) = ground (arith, check_iff name rs)

failures_absent : (n : Bytes) (rs : List ImageResult) → has n rs ≡ false → failures n rs ≡ 0
unfolding failures has
failures_absent n [] h = refl
failures_absent n (r ∷ rs) h = ground (arith, failures_absent n rs)

clash :
    (r x : ImageResult) (t old : List ImageResult) (n : Bytes)
    → has r.image old ≡ false
    → has r.image old ≡ equal x.image r.image || has r.image t
    → equal r.image n ≡ true
    → equal x.image n ≡ false
clash r x t old n fresh split same =
    subst (λ m. equal x.image m ≡ false) ((equal_iff r.image n).0 same) (ground arith)

pub moved :
    (change : ImageResult → ImageResult) (i : ℕ) (new x : ImageResult) (rs rest : List ImageResult)
    → pick i rs ≡ some (x, rest)
    → move_or_add_front change (some i) new rs ≡ change x ∷ rest
unfolding move_or_add_front
moved change i new x rs rest e = rw (move_or_add_front, e)

-- Moving a record to the front does not change what is recorded for any image.
failures-pick :
    (i : ℕ) (rs : List ImageResult) (n : Bytes) (x : ImageResult) (rest : List ImageResult)
    → Distinct rs
    → pick i rs ≡ some (x, rest)
    → failures n rs ≡ failures n (x ∷ rest)
unfolding failures pick Distinct
failures-pick i [] n x rest d h = ground arith
failures-pick zero (r ∷ rs) n x rest d h = ground arith
failures-pick (suc i) (r ∷ rs) n x rest (fresh, d) h =
    let (t, e, eq) = pick-suc i r rs h in
    let same = failures-pick i rs n x t d e in
    let split = has-pick i rs r.image e in
    elim (Bool-cases (equal r.image n)) [
      | inl t1 ↦ rw (eq, t1, clash r x t rs n fresh split t1) refl
      | inr f1 ↦ rw (eq, f1, same) refl
    ]

-- What one report does: the record of image `m` is counted up by `k`, the others stay.
pub move_or_add_front-failures :
    (change : ImageResult → ImageResult) (o : Option ℕ) (m n : Bytes) (k : ℕ)
    (rs : List ImageResult)
    → Distinct rs
    → IsFound m rs o
    → ((r : ImageResult) → (change r).image ≡ r.image)
    → ((r : ImageResult) → total (change r) ≡ u64 (total r + k))
    → failures n (move_or_add_front change o (new_result m) rs)
      ≡ (if equal m n then u64 (failures n rs + k) else failures n rs)
unfolding move_or_add_front failures
move_or_add_front-failures change none m n k rs d found keeps counts =
    let zero_before : equal m n ≡ true → failures n rs ≡ 0 =
      λ t. failures_absent n rs (subst (λ m. has m rs ≡ false) ((equal_iff m n).0 t) found) in
    rw (keeps (new_result m), counts (new_result m))
      (elim (Bool-cases (equal m n)) [ inl t ↦ rw (t, zero_before t) refl | inr f ↦ rw f refl ])
move_or_add_front-failures change (some i) m n k rs d (x, rest, e, same) keeps counts =
    let named = (equal_iff x.image m).0 same in
    rw
      (
        moved change i (new_result m) x rs rest e,
        failures-pick i rs n x rest d e,
        failures,
        keeps x,
        counts x,
        named,
      )
      (ground arith)

-- One report keeps the images different.
pub move_or_add_front-Distinct :
    (change : ImageResult → ImageResult) (o : Option ℕ) (m : Bytes) (rs : List ImageResult)
    → Distinct rs
    → IsFound m rs o
    → ((r : ImageResult) → (change r).image ≡ r.image)
    → Distinct (move_or_add_front change o (new_result m) rs)
unfolding move_or_add_front Distinct
move_or_add_front-Distinct change none m rs d found keeps = rw (keeps (new_result m)) (found, d)
move_or_add_front-Distinct change (some i) m rs d (x, rest, e, same) keeps =
    rw (moved change i (new_result m) x rs rest e, keeps x) (pick-Distinct i rs x rest d e)
