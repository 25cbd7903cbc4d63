-- ===== src/Cpu.antt =====
-- pkg/hw/cpu/topology.go: sets of processors, chosen by how much they and their siblings are used.
pub mod Counts
pub mod Chosen
-- `CpuSet`
use gprovision.Prelude.{
  Bool, Bytes, List, Option, [], false, if◌then◌else◌, leb, length, ltb, none, not, parse_uint,
  some, split_on, suc, trim_byte, true, zero, ℕ, ◌%◌, ◌&&◌, ◌++◌, ◌+◌, ◌-◌, ◌==◌, ◌^◌, ◌||◌, ◌∷◌,
}

abbrev pub CpuSet : Type 0
CpuSet = List ℕ

-- `useCount`: a map from processors to the number of queues on them.
abbrev pub UseCount : Type 0
UseCount = List (ℕ × ℕ)

-- What `weight` adds up: the uses of a processor, of its thread siblings (each counts .5) and of
-- its core siblings (each counts .01).
pub record Weight : Type 0 where
  pub own : ℕ
  pub threads : ℕ
  pub cores : ℕ

-- The maps that `populateMaps` fills, and two parameters: `lighter` compares the sums of weights,
-- which are floating-point numbers, and `visit` is the order in which a map's keys come.
pub record Topology : Type 0 where
  pub num_cpus : ℕ
  pub all_cpus : CpuSet
  pub thread_sib : ℕ → CpuSet
  pub core_sib : ℕ → CpuSet
  pub lighter : Weight → Weight → Bool
  pub visit : UseCount → List ℕ

-- `CpuSet.Contains`
unfoldable pub contains : CpuSet → ℕ → Bool
contains [] c = false
contains (v ∷ s) c = let rest = contains s c in if c == v then true else rest

-- `ContainsTSib` and `ContainsCSib`, with the siblings of the processor.
unfoldable pub contains_sibling : CpuSet → CpuSet → ℕ → Bool
contains_sibling siblings [] c = false
contains_sibling siblings (v ∷ s) c =
    let rest = contains_sibling siblings s c in
    if contains siblings v && not (c == v) then true else rest

-- A map's value, 0 for a missing key.
unfoldable pub count_of : ℕ → UseCount → ℕ
count_of c [] = 0
count_of c ((k, n) ∷ uc) = let rest = count_of c uc in if c == k then n else rest

unfoldable pub set_count : ℕ → ℕ → UseCount → UseCount
set_count c n [] = (c, n) ∷ []
set_count c n ((k, m) ∷ uc) =
    let rest = set_count c n uc in if c == k then (c, n) ∷ uc else (k, m) ∷ rest

-- `siblingWeight`
unfoldable pub sibling_weight : UseCount → CpuSet → ℕ → ℕ
sibling_weight uc [] c = 0
sibling_weight uc (s ∷ siblings) c =
    let rest = sibling_weight uc siblings c in if s == c then rest else count_of s uc + rest

unfoldable pub weight : Topology → UseCount → ℕ → Weight
weight t uc c = record {
  own = count_of c uc;
  threads = sibling_weight uc (t.thread_sib c) c;
  cores = sibling_weight uc (t.core_sib c) c;
}

-- The loop of `lowestWeight`; `wl` is the weight of `lowest`.
unfoldable pub lowest_from : Topology → UseCount → CpuSet → Bool → ℕ → List ℕ → ℕ
lowest_from t uc exclude first lowest [] = lowest
lowest_from t uc exclude first lowest (c ∷ cs) =
    let better =
      not (contains exclude c) && (first || t.lighter (weight t uc c) (weight t uc lowest)) in
    lowest_from t uc exclude (first && not better) (if better then c else lowest) cs

unfoldable pub reset_counts : CpuSet → UseCount → UseCount
reset_counts [] uc = uc
reset_counts (c ∷ cs) uc = reset_counts cs (set_count c 0 uc)

-- `lowestWeight` sets every count to 0 while a processor has none.
unfoldable pub known_counts : Topology → UseCount → UseCount
known_counts t uc = if ltb (length uc % 2 ^ 16) t.num_cpus then reset_counts t.all_cpus uc else uc

-- `lowestWeight`, with the counts it leaves.
unfoldable pub lowest_weight : Topology → CpuSet → UseCount → ℕ × UseCount
lowest_weight t exclude uc =
    let known = known_counts t uc in (lowest_from t known exclude true 0 (t.visit known), known)

-- The loop of `CreateSetWeighted`, by the number of processors that the set still lacks.
unfoldable pub create_from : Topology → ℕ → CpuSet → UseCount → CpuSet × UseCount
create_from t zero set uc = (set, uc)
create_from t (suc left) set uc =
    let found = lowest_weight t set uc in
    let next = found.0 in
    create_from t left (set ++ next ∷ []) (set_count next (count_of next found.1 + 1) found.1)

unfoldable pub set_size : Topology → ℕ → ℕ
set_size t size = if ltb t.num_cpus (size % 2 ^ 16) then t.num_cpus else size % 2 ^ 16

-- `CreateSetWeighted`, with the counts it leaves.
unfoldable pub create_set_weighted : Topology → ℕ → UseCount → CpuSet × UseCount
create_set_weighted t size uc = create_from t (set_size t size) [] uc

-- What `parseCpuList` ends with: a set, an error with the set so far, or a panic.
pub data ListResult : Type 0 where
  parsed : CpuSet → ListResult
  e_list : CpuSet → ListResult
  bad_len : ListResult

-- The processors from `lo`, `n` of them.
unfoldable pub cpu_range : ℕ → ℕ → CpuSet
cpu_range lo zero = []
cpu_range lo (suc n) = lo ∷ cpu_range (lo + 1) n

unfoldable pub parse_range : List Bytes → Option (Option (ℕ × ℕ))
parse_range (l ∷ u ∷ []) = some (elim (parse_uint 10 16 l) [
  | none ↦ none
  | some lo ↦ elim (parse_uint 10 16 u) [
    | none ↦ none
    | some hi ↦ if leb hi lo then none else some (lo, hi)
  ]
])
parse_range [] = none
parse_range (l ∷ []) = none
parse_range (l ∷ u ∷ v ∷ more) = none

unfoldable pub parse_parts : CpuSet → List Bytes → ListResult
parse_parts s [] = parsed s
parse_parts s (p ∷ parts) =
    if contains p b'-'
    then elim (parse_range (split_on b'-' p)) [
      | none ↦ bad_len
      | some none ↦ e_list s
      | some (some (lo, hi)) ↦ parse_parts (s ++ cpu_range lo (hi + 1 - lo)) parts
    ]
    else elim (parse_uint 10 16 p) [
      | none ↦ e_list s
      | some val ↦ if contains s val then e_list s else parse_parts (s ++ val ∷ []) parts
    ]

-- `parseCpuList`
unfoldable pub parse_cpu_list : Bytes → ListResult
parse_cpu_list lst = parse_parts [] (split_on b',' (trim_byte 10 lst))
