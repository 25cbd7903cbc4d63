-- ===== src/Cpu/Counts.antt =====
-- The counts of `useCount` as a map, and how many processors a set leaves.
-- A set without repetitions.
use gprovision.Cpu.{CpuSet, UseCount, contains, set_count}
use gprovision.Prelude.{
  Bool-cases, [], arith, false, if◌then◌else◌, inl, inr, length, refl, true, ℕ, ◌++◌, ◌+◌, ◌==◌,
  ◌||◌, ◌∷◌, ◌≡◌, ◌≤◌,
}

unfoldable pub Distinct : CpuSet → Type 0
Distinct [] = Unit
Distinct (c ∷ s) = (contains s c ≡ false) × Distinct s

unfoldable pub keys : UseCount → CpuSet
keys [] = []
keys ((k, n) ∷ uc) = k ∷ keys uc

-- The processors of `all` outside of a set.
unfoldable pub free : CpuSet → CpuSet → CpuSet
free s [] = []
free s (c ∷ all) = let rest = free s all in if contains s c then rest else c ∷ rest

pub contains-append : (s u : CpuSet) (c : ℕ) → contains (s ++ u) c ≡ contains s c || contains u c
unfolding contains
contains-append [] u c = refl
contains-append (v ∷ s) u c = ground (arith, contains-append s u c)

pub contains-set_count :
    (k n : ℕ) (uc : UseCount) (c : ℕ)
    → contains (keys (set_count k n uc)) c ≡ contains (k ∷ keys uc) c
unfolding contains set_count keys
contains-set_count k n [] c = refl
contains-set_count k n ((j, m) ∷ uc) c = ground (arith, contains-set_count k n uc c)

set_count_present :
    (k n j m : ℕ) (uc : UseCount) → k == j ≡ true → keys (set_count k n ((j, m) ∷ uc)) ≡ j ∷ keys uc
unfolding set_count keys
set_count_present k n j m uc e = ground arith

set_count_later :
    (k n j m : ℕ) (uc : UseCount)
    → k == j ≡ false
    → keys (set_count k n ((j, m) ∷ uc)) ≡ j ∷ keys (set_count k n uc)
unfolding set_count keys
set_count_later k n j m uc e = ground arith

set_count_keeps_absent :
    (k n j : ℕ) (uc : UseCount)
    → k == j ≡ false
    → contains (keys uc) j ≡ false
    → contains (keys (set_count k n uc)) j ≡ false
unfolding contains
set_count_keeps_absent k n j uc e h = rw (contains-set_count k n uc j) (ground arith)

pub set_count-Distinct :
    (k n : ℕ) (uc : UseCount) → Distinct (keys uc) → Distinct (keys (set_count k n uc))
unfolding contains keys Distinct
set_count-Distinct k n [] h = unfold set_count in (refl, tt)
set_count-Distinct k n ((j, m) ∷ uc) (h, hs) = elim (Bool-cases (k == j)) [
  | inl e ↦ rw (set_count_present k n j m uc e) (h, hs)
  | inr e ↦
      rw (set_count_later k n j m uc e)
        (set_count_keeps_absent k n j uc e h, set_count-Distinct k n uc hs)
]

free-cons_absent :
    (x : ℕ) (s all : CpuSet)
    → contains all x ≡ false
    → length (free s all) ≡ length (free (x ∷ s) all)
unfolding contains free
free-cons_absent x s [] h = refl
free-cons_absent x s (c ∷ all) h = ground (arith, free-cons_absent x s all)

free-cons :
    (x : ℕ) (s all : CpuSet) → Distinct all → length (free s all) ≤ length (free (x ∷ s) all) + 1
unfolding contains free Distinct
free-cons x s [] h = omega arith
free-cons x s (c ∷ all) (h, hs) = ground (arith, free-cons x s all hs, free-cons_absent x s all)

free-[] : (all : CpuSet) → length (free [] all) ≡ length all
unfolding free contains
free-[] [] = refl
free-[] (c ∷ all) = ground (arith, free-[] all)

pub length-free : (s all : CpuSet) → Distinct all → length all ≤ length (free s all) + length s
length-free [] all h = rw (free-[] all) (omega arith)
length-free (x ∷ s) all h =
    let step = free-cons x s all h in let rest = length-free s all h in omega arith
