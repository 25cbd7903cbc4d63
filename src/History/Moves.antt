-- ===== src/History/Moves.antt =====
-- Records moved to the front: each image has at most one record.
use mathlib.Core.Path.{subst}
use gprovision.History.{ImageResult, find_first, find_last, pick}
use gprovision.Prelude.{
  Bool, Bool-cases, Bytes, List, Option, Option-cases, [], arith, equal, false, inl, inr, none,
  refl, some, suc, true, zero, ℕ, ◌||◌, ◌∷◌, ◌≡◌,
}

-- Whether an image has a record.
unfoldable pub has : Bytes → List ImageResult → Bool
has name [] = false
has name (r ∷ rs) = equal r.image name || has name rs

-- No two records are for one image.
unfoldable pub Distinct : List ImageResult → Type 0
Distinct [] = Unit
Distinct (r ∷ rs) = (has r.image rs ≡ false) × Distinct rs

pub pick-suc :
    (i : ℕ) (r : ImageResult) (rs : List ImageResult) {x : ImageResult} {rest : List ImageResult}
    → pick (suc i) (r ∷ rs) ≡ some (x, rest)
    → (t : List ImageResult) × (pick i rs ≡ some (x, t)) × (rest ≡ r ∷ t)
unfolding pick
pick-suc i r rs {x} {rest} h = elim (Option-cases (pick i rs)) [
  | inl e ↦ ground (arith, e)
  | inr ((y, t), e) ↦ (t, ground (arith, e), ground (arith, e))
]

-- Picking a record leaves the others in their order.
pub has-pick :
    (i : ℕ) (rs : List ImageResult) (n : Bytes) {x : ImageResult} {rest : List ImageResult}
    → pick i rs ≡ some (x, rest)
    → has n rs ≡ equal x.image n || has n rest
unfolding pick has
has-pick i [] n h = ground arith
has-pick zero (r ∷ rs) n h = ground arith
has-pick (suc i) (r ∷ rs) n {x} {rest} h =
    let (t, e, eq) = pick-suc i r rs h in ground (arith, has-pick i rs n e, eq)

pub equal_comm : (a b : Bytes) → equal a b ≡ equal b a
unfolding equal
equal_comm [] [] = refl
equal_comm [] (y ∷ b) = refl
equal_comm (x ∷ a) [] = refl
equal_comm (x ∷ a) (y ∷ b) = ground (arith, equal_comm a b)

pick_apart :
    (r x : ImageResult) (t old : List ImageResult)
    → has r.image old ≡ false
    → has r.image old ≡ equal x.image r.image || has r.image t
    → has x.image t ≡ false
    → has x.image (r ∷ t) ≡ false
unfolding has
pick_apart r x t old fresh split apart = ground (arith, equal_comm r.image x.image)

pick_rest :
    (r x : ImageResult) (t old : List ImageResult)
    → has r.image old ≡ false
    → has r.image old ≡ equal x.image r.image || has r.image t
    → has r.image t ≡ false
pick_rest r x t old fresh split = ground arith

-- A picked record and the rest are for different images.
abbrev FrontIsApart : Option (ImageResult × List ImageResult) → Type 0
FrontIsApart none = Unit
FrontIsApart (some (x, rest)) = (has x.image rest ≡ false) × Distinct rest

pub pick-Distinct :
    (i : ℕ) (rs : List ImageResult) (x : ImageResult) (rest : List ImageResult)
    → Distinct rs
    → pick i rs ≡ some (x, rest)
    → (has x.image rest ≡ false) × Distinct rest
unfolding pick Distinct
pick-Distinct i [] x rest d h = ground arith
pick-Distinct zero (r ∷ rs) x rest d h = subst FrontIsApart h d
pick-Distinct (suc i) (r ∷ rs) x rest (fresh, d) h =
    let (t, e, eq) = pick-suc i r rs h in
    let (apart, clean) = pick-Distinct i rs x t d e in
    let split = has-pick i rs r.image e in
    rw eq (pick_apart r x t rs fresh split apart, (pick_rest r x t rs fresh split, clean))

-- Both ways to look for an image find its record, and only if there is one.
abbrev pub IsFound : Bytes → List ImageResult → Option ℕ → Type 0
IsFound name rs none = has name rs ≡ false
IsFound name rs (some i) =
    (x : ImageResult) × (rest : List ImageResult) × (pick i rs ≡ some (x, rest))
    × (equal x.image name ≡ true)

IsFound-suc :
    (name : Bytes) (r : ImageResult) (rs : List ImageResult) (i : ℕ)
    → IsFound name rs (some i)
    → IsFound name (r ∷ rs) (some (suc i))
unfolding pick
IsFound-suc name r rs i (x, rest, e, same) = (x, r ∷ rest, rw e, same)

pub IsFound-zero :
    (name : Bytes) (r : ImageResult) (rs : List ImageResult)
    → equal r.image name ≡ true
    → IsFound name (r ∷ rs) (some 0)
unfolding pick
IsFound-zero name r rs same = (r, rs, refl, same)

IsFound-later :
    (name : Bytes) (r : ImageResult) (rs : List ImageResult) (o : Option ℕ)
    → equal r.image name ≡ false
    → IsFound name rs o
    → IsFound name (r ∷ rs) (elim o [ none ↦ none | some i ↦ some (suc i) ])
unfolding has
IsFound-later name r rs none apart found = rw apart found
IsFound-later name r rs (some i) apart found = IsFound-suc name r rs i found

pub find_first-IsFound :
    (name : Bytes) (rs : List ImageResult) → IsFound name rs (find_first name rs)
unfolding find_first has
find_first-IsFound name [] = refl
find_first-IsFound name (r ∷ rs) = elim (Bool-cases (equal r.image name)) [
  | inl t ↦ rw t (IsFound-zero name r rs t)
  | inr f ↦ rw f (IsFound-later name r rs (find_first name rs) f (find_first-IsFound name rs))
]

find_last_step :
    (name : Bytes) (r : ImageResult) (rs : List ImageResult) (o : Option ℕ)
    → find_last name rs ≡ o
    → IsFound name rs o
    → IsFound name (r ∷ rs) (find_last name (r ∷ rs))
unfolding find_last has
find_last_step name r rs (some i) e found = rw e (IsFound-suc name r rs i found)
find_last_step name r rs none e found = elim (Bool-cases (equal r.image name)) [
  | inl t ↦ rw (e, t) (IsFound-zero name r rs t)
  | inr f ↦ rw (e, f) (IsFound-later name r rs none f found)
]

pub find_last-IsFound : (name : Bytes) (rs : List ImageResult) → IsFound name rs (find_last name rs)
unfolding find_last has
find_last-IsFound name [] = refl
find_last-IsFound name (r ∷ rs) =
    find_last_step name r rs (find_last name rs) refl (find_last-IsFound name rs)
