-- ===== src/Cpu/Chosen.antt =====
-- What `CreateSetWeighted` chooses.
pub mod Lightest
-- The loop of `lowestWeight` finds a processor outside of the excluded ones.
use gprovision.Cpu.{
  CpuSet, Topology, UseCount, contains, count_of, create_from, create_set_weighted, known_counts,
  lowest_from, lowest_weight, reset_counts, set_count, set_size, weight,
}
use gprovision.Cpu.Counts.{
  Distinct, contains-append, contains-set_count, free, keys, length-free, set_count-Distinct,
}
use gprovision.Prelude.{
  Bool-cases, List, [], arith, false, inl, inr, length, length-append, ltb, refl, suc, true, zero,
  ℕ, ◌%◌, ◌++◌, ◌+◌, ◌<◌, ◌==◌, ◌||◌, ◌∷◌, ◌≡◌, ◌≤◌,
}

lowest_from-keeps :
    (t : Topology) (uc : UseCount) (ex : CpuSet) (lowest : ℕ) (cs : List ℕ)
    → contains ex lowest ≡ false
    → contains ex (lowest_from t uc ex false lowest cs) ≡ false
unfolding lowest_from
lowest_from-keeps t uc ex lowest [] h = h
lowest_from-keeps t uc ex lowest (c ∷ cs) h = elim (Bool-cases (contains ex c)) [
  | inl e ↦ rw e (lowest_from-keeps t uc ex lowest cs h)
  | inr e ↦ elim (Bool-cases (t.lighter (weight t uc c) (weight t uc lowest))) [
    | inl l ↦ rw (e, l) (lowest_from-keeps t uc ex c cs e)
    | inr l ↦ rw (e, l) (lowest_from-keeps t uc ex lowest cs h)
  ]
]

lowest_from_outside :
    (t : Topology) (uc : UseCount) (ex : CpuSet) (lowest : ℕ) (cs : List ℕ)
    → 1 ≤ length (free ex cs)
    → contains ex (lowest_from t uc ex true lowest cs) ≡ false
unfolding lowest_from free
lowest_from_outside t uc ex lowest [] h = absurd (omega arith)
lowest_from_outside t uc ex lowest (c ∷ cs) h = elim (Bool-cases (contains ex c)) [
  | inl e ↦ rw e (lowest_from_outside t uc ex lowest cs (ground arith))
  | inr e ↦ rw e (lowest_from-keeps t uc ex c cs e)
]

-- A processor without a count is a key after the counts are set.
contains-reset_counts :
    (cs : CpuSet) (uc : UseCount) (c : ℕ)
    → contains (keys (reset_counts cs uc)) c ≡ contains cs c || contains (keys uc) c
unfolding reset_counts contains
contains-reset_counts [] uc c = refl
contains-reset_counts (k ∷ cs) uc c =
    rw (contains-reset_counts cs (set_count k 0 uc) c, contains-set_count k 0 uc c) (ground arith)

reset_counts-Distinct :
    (cs : CpuSet) (uc : UseCount) → Distinct (keys uc) → Distinct (keys (reset_counts cs uc))
unfolding reset_counts
reset_counts-Distinct [] uc h = h
reset_counts-Distinct (k ∷ cs) uc h =
    reset_counts-Distinct cs (set_count k 0 uc) (set_count-Distinct k 0 uc h)

known_counts-Distinct :
    (t : Topology) (uc : UseCount) → Distinct (keys uc) → Distinct (keys (known_counts t uc))
unfolding known_counts
known_counts-Distinct t uc h = elim (Bool-cases (ltb (length uc % 65536) t.num_cpus)) [
  | inl e ↦ rw e (reset_counts-Distinct t.all_cpus uc h)
  | inr e ↦ rw e h
]

-- The order of a map's keys: each key once.
unfoldable pub Visits : Topology → Type 0
Visits t =
    (uc : UseCount)
    → Distinct (keys uc)
    → Distinct (t.visit uc) × ((c : ℕ) → contains (t.visit uc) c ≡ contains (keys uc) c)

free_none :
    (s all : CpuSet)
    → ((c : ℕ) → contains all c ≡ true → contains s c ≡ true)
    → length (free s all) ≡ 0
unfolding free contains
free_none s [] h = refl
free_none s (c ∷ all) h =
    let here : contains s c ≡ true = h c (ground arith) in
    rw here (free_none s all (λ d e. h d (ground arith)))

length-subset :
    (s all : CpuSet)
    → Distinct all
    → ((c : ℕ) → contains all c ≡ true → contains s c ≡ true)
    → length all ≤ length s
length-subset s all h sub =
    let none_left = free_none s all sub in let most = length-free s all h in omega arith

length-keys : (uc : UseCount) → length (keys uc) ≡ length uc
unfolding keys
length-keys [] = refl
length-keys ((k, n) ∷ uc) = ground (arith, length-keys uc)

length-visit :
    (t : Topology) (uc : UseCount)
    → Visits t
    → Distinct t.all_cpus
    → t.num_cpus ≤ length t.all_cpus
    → Distinct (keys uc)
    → t.num_cpus ≤ length (t.visit (known_counts t uc))
unfolding Visits known_counts
length-visit t uc v d n h = elim (Bool-cases (ltb (length uc % 65536) t.num_cpus)) [
  | inl e ↦
      let seen = v (reset_counts t.all_cpus uc) (reset_counts-Distinct t.all_cpus uc h) in
      let most =
        length-subset (t.visit (reset_counts t.all_cpus uc)) t.all_cpus d
          (λ c k. rw (seen.1 c, contains-reset_counts t.all_cpus uc c, k) refl) in
      rw e (omega arith)
  | inr e ↦
      let seen = v uc h in
      let most = length-subset (t.visit uc) (keys uc) h (λ c k. rw (seen.1 c) k) in
      let size = length-keys uc in
      let many : t.num_cpus ≤ length uc % 65536 = ground arith in rw e (omega arith)
]

append_one-Distinct :
    (s : CpuSet) (x : ℕ) → Distinct s → contains s x ≡ false → Distinct (s ++ x ∷ [])
unfolding Distinct contains
append_one-Distinct [] x h a = (refl, tt)
append_one-Distinct (v ∷ s) x (h, hs) a =
    let other : x == v ≡ false = ground arith in
    let after : contains s x ≡ false = ground arith in
    (rw (contains-append s (x ∷ []) v, h) (ground arith), append_one-Distinct s x hs after)

lowest_weight_outside :
    (t : Topology) (set : CpuSet) (uc : UseCount)
    → Visits t
    → Distinct t.all_cpus
    → t.num_cpus ≤ length t.all_cpus
    → Distinct (keys uc)
    → length set < t.num_cpus
    → contains set (lowest_weight t set uc).0 ≡ false
unfolding lowest_weight Visits
lowest_weight_outside t set uc v d n h b =
    let known = known_counts t uc in
    let seen = v known (known_counts-Distinct t uc h) in
    let most = length-free set (t.visit known) seen.0 in
    let enough = length-visit t uc v d n h in
    lowest_from_outside t known set 0 (t.visit known) (omega arith)

create_from-Distinct :
    (t : Topology) (left : ℕ) (set : CpuSet) (uc : UseCount)
    → Visits t
    → Distinct t.all_cpus
    → t.num_cpus ≤ length t.all_cpus
    → Distinct (keys uc)
    → Distinct set
    → length set + left ≤ t.num_cpus
    → Distinct (create_from t left set uc).0
      × (length (create_from t left set uc).0 ≡ length set + left)
unfolding create_from
create_from-Distinct t zero set uc v d n h ds b = (ds, omega arith)
create_from-Distinct t (suc left) set uc v d n h ds b =
    let found = lowest_weight t set uc in
    let next = found.0 in
    let outside = lowest_weight_outside t set uc v d n h (omega arith) in
    let size = length-append set (next ∷ []) in
    let rest =
      create_from-Distinct t left (set ++ next ∷ [])
        (set_count next (count_of next found.1 + 1) found.1) v d n
        (set_count-Distinct next (count_of next found.1 + 1) found.1
          (unfold lowest_weight in known_counts-Distinct t uc h))
        (append_one-Distinct set next ds outside) (omega arith) in
    (rest.0, omega arith)

-- If the order of a map's keys visits each of them once, the online processors are distinct and no
-- fewer than the number of processors, and the counts have one entry for each key,
-- `CreateSetWeighted` returns distinct processors, as many as it is asked for modulo 2^16, or all
-- if that is more.
pub create_set_weighted-Distinct :
    (t : Topology) (size : ℕ) (uc : UseCount)
    → Visits t
    → Distinct t.all_cpus
    → t.num_cpus ≤ length t.all_cpus
    → Distinct (keys uc)
    → Distinct (create_set_weighted t size uc).0
      × (length (create_set_weighted t size uc).0 ≡ set_size t size)
unfolding create_set_weighted Distinct
create_set_weighted-Distinct t size uc v d n h =
    let made =
      create_from-Distinct t (set_size t size) [] uc v d n h tt (unfold set_size in ground arith) in
    (made.0, omega arith)
