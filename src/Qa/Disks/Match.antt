-- ===== src/Qa/Disks/Match.antt =====
-- What it takes for a config of main disks to match.
use gprovision.Prelude.{
  Bool, Bool-cases, Bytes, List, Option-cases, [], ap, arith, equal_iff, if◌then◌else◌, inl, inr,
  length, none, refl, some, true, ℕ, ◌+◌, ◌∙◌, ◌∷◌, ◌≡◌,
}
use gprovision.Qa.Disks.{Disk, cfg_match, compare_mv, match_loop, qty, take_in}

-- The disks that a predicate on vendor and model selects, by their quantities.
abbrev pub total : (Bytes → Bytes → Bool) → List Disk → ℕ
total p [] = 0
total p (d ∷ ds) = (if p d.vendor d.model then d.quantity else 0) + total p ds

-- The disks that the config does not take in.
abbrev skipped : List Disk → List Disk → List Disk
skipped [] remaining = []
skipped (d ∷ ds) remaining = elim (take_in d remaining) [
  | some remaining' ↦ skipped ds remaining'
  | none ↦ d ∷ skipped ds remaining
]

compare_mv→eq :
    (p : Bytes → Bytes → Bool) (a b : Disk)
    → compare_mv a b ≡ true
    → p a.vendor a.model ≡ p b.vendor b.model
compare_mv→eq p a b h =
    let m = (equal_iff a.model b.model).0 (ground arith) in
    let v = (equal_iff a.vendor b.vendor).0 (ground arith) in cc

take_in-total :
    (p : Bytes → Bytes → Bool) (d : Disk) (rs : List Disk) {rs' : List Disk}
    → take_in d rs ≡ some rs'
    → total p rs ≡ total p rs' + (if p d.vendor d.model then d.quantity else 0)
unfolding take_in
take_in-total p d [] h = cc
take_in-total p d (r ∷ rs) {rs'} h = elim (Bool-cases (compare_mv r d)) [
  | inl t ↦ elim (Option-cases (take_in d rs)) [
    | inl e ↦ ground (arith, compare_mv→eq p r d t, t, e, h)
    | inr (rs'', e) ↦ ground (arith, compare_mv→eq p r d t, t, e, h, take_in-total p d rs e)
  ]
  | inr f ↦ elim (Option-cases (take_in d rs)) [
    | inl e ↦ ground (arith, f, e, h)
    | inr (rs'', e) ↦ ground (arith, f, e, h, take_in-total p d rs e)
  ]
]

match_loop-skipped :
    (found remaining : List Disk) (n : ℕ)
    → (match_loop found remaining n).1 ≡ n + length (skipped found remaining)
unfolding match_loop
match_loop-skipped [] remaining n = omega arith
match_loop-skipped (d ∷ ds) remaining n = elim (Option-cases (take_in d remaining)) [
  | inl e ↦ rw (e, match_loop, skipped) (match_loop-skipped ds remaining (n + 1) ∙ omega arith)
  | inr (remaining', e) ↦ rw (e, match_loop, skipped) (match_loop-skipped ds remaining' n)
]

match_loop-total :
    (p : Bytes → Bytes → Bool) (found remaining : List Disk) (n : ℕ)
    → total p found + total p (match_loop found remaining n).0
      ≡ total p remaining + total p (skipped found remaining)
unfolding match_loop
match_loop-total p [] remaining n = omega arith
match_loop-total p (d ∷ ds) remaining n = elim (Option-cases (take_in d remaining)) [
  | inl e ↦ rw (e, match_loop, skipped) (omega (arith, match_loop-total p ds remaining (n + 1)))
  | inr (remaining', e) ↦
      rw (e, match_loop, skipped)
        (omega (arith, match_loop-total p ds remaining' n, take_in-total p d remaining e))
]

qty-total : (ds : List Disk) → qty ds ≡ total (λ v m. true) ds
unfolding qty
qty-total [] = refl
qty-total (d ∷ ds) = omega (arith, qty-total ds)

one_of_length : (ds : List Disk) → length ds ≡ 1 → (d : Disk) × (ds ≡ d ∷ [])
one_of_length [] h = absurd (omega (arith, h))
one_of_length (d ∷ []) h = (d, refl)
one_of_length (d ∷ e ∷ ds) h = absurd (omega (arith, h))

nil_of_length : (ds : List Disk) → length ds ≡ 0 → ds ≡ []
nil_of_length [] h = refl
nil_of_length (d ∷ ds) h = absurd (omega (arith, h))

extra_lem :
    (cfg found : List Disk)
    → qty cfg + 1 ≡ qty found
    → (match_loop found cfg 0).0 ≡ []
    → (d : Disk) × (skipped found cfg ≡ d ∷ [])
    → (extra : Disk) × (extra.quantity ≡ 1)
      × ((p : Bytes → Bytes → Bool)
          → total p found ≡ total p cfg + (if p extra.vendor extra.model then 1 else 0))
extra_lem cfg found q all_found (extra, e) =
    let totals : (p : Bytes → Bytes → Bool) → total p found ≡ total p cfg + total p (extra ∷ []) =
      λ p. omega (arith, match_loop-total p found cfg 0, ap (total p) all_found, ap (total p) e) in
    let one : extra.quantity ≡ 1 =
      ground (arith, q, qty-total found, qty-total cfg, totals (λ v m. true)) in
    (extra, one, λ p. ground (arith, totals p, one))

-- If a config matches, the disks that are found are those of the config, by the quantity of each
-- vendor and model, and one disk more: the recovery disk.
pub cfg_match-total :
    (cfg found : List Disk)
    → cfg_match cfg found ≡ true
    → (extra : Disk) × (extra.quantity ≡ 1)
      × ((p : Bytes → Bytes → Bool)
          → total p found ≡ total p cfg + (if p extra.vendor extra.model then 1 else 0))
unfolding cfg_match
cfg_match-total cfg found h =
    let skip = match_loop-skipped found cfg 0 in
    let q : qty cfg + 1 ≡ qty found = ground (arith, h) in
    extra_lem cfg found q (nil_of_length (match_loop found cfg 0).0 (ground (arith, h)))
      (one_of_length (skipped found cfg) (ground (arith, h, skip)))
