-- ===== src/Raid/Arrays/Laws.antt =====
-- What the arrays hold.
use gprovision.Prelude.{
  All, Bool, Bool-cases, List, [], ap, arith, false, if◌then◌else◌, inl, inr, length, not, refl,
  suc, true, zero, ℕ, ◌&&◌, ◌+◌, ◌||◌, ◌∙◌, ◌∷◌, ◌≡◌, ◌≤◌,
}
use gprovision.Raid.Arrays.{
  Member, collect_from, find_arrays, find_from, is_unset, joins, same_kind,
}
use gprovision.Raid.Metadata.{RaidType, ddf, msm, unknown, unset}

-- Not in an array yet, and of a known type or a size that only a data disk has.
abbrev pub is_free : Member → Bool
is_free d = not (d.in_array || is_unset d.kind)

-- The devices among those that a predicate on the identity selects.
abbrev pub count_ids : (ℕ → Bool) → List Member → ℕ
count_ids p [] = 0
count_ids p (d ∷ ds) = (if p d.id then 1 else 0) + count_ids p ds

abbrev pub count_free : (ℕ → Bool) → List Member → ℕ
count_free p [] = 0
count_free p (d ∷ ds) = (if is_free d && p d.id then 1 else 0) + count_free p ds

abbrev pub count_all : (ℕ → Bool) → List (List Member) → ℕ
count_all p [] = 0
count_all p (a ∷ as') = count_ids p a + count_all p as'

same_kind→eq : (a b : RaidType) → same_kind a b ≡ true → a ≡ b
unfolding same_kind
same_kind→eq unset unset h = refl
same_kind→eq unset unknown h = cc
same_kind→eq unset msm h = cc
same_kind→eq unset ddf h = cc
same_kind→eq unknown unset h = cc
same_kind→eq unknown unknown h = refl
same_kind→eq unknown msm h = cc
same_kind→eq unknown ddf h = cc
same_kind→eq msm unset h = cc
same_kind→eq msm unknown h = cc
same_kind→eq msm msm h = refl
same_kind→eq msm ddf h = cc
same_kind→eq ddf unset h = cc
same_kind→eq ddf unknown h = cc
same_kind→eq ddf msm h = cc
same_kind→eq ddf ddf h = refl

-- An array: a first device, and others of its type and size.
abbrev pub IsArray : (ℕ → ℕ → Bool) → List Member → Type 0
IsArray size_match [] = ⊥
IsArray size_match (d ∷ es) =
    (is_unset d.kind ≡ false) × All (λ e. (e.kind ≡ d.kind) × (size_match d.size e.size ≡ true)) es

module _ (size_match : ℕ → ℕ → Bool) where
  collect_from-count :
      (p : ℕ → Bool) (d : Member) (ds : List Member)
      → is_unset d.kind ≡ false
      → count_ids p (collect_from size_match d ds).0 + count_free p (collect_from size_match d ds).1
        ≡ count_free p ds
  unfolding collect_from
  collect_from-count p d [] k = refl
  collect_from-count p d (e ∷ es) k =
      let rest = collect_from-count p d es k in
      elim (Bool-cases (joins size_match d e)) [
        | inl t ↦
            let kinds = same_kind→eq e.kind d.kind (ground (arith, t)) in
            let known : is_unset e.kind ≡ false = ap is_unset kinds ∙ k in
            ground (arith, rest, t, known)
        | inr f ↦ ground (arith, rest, f)
      ]

  collect_from-length :
      (d : Member) (ds : List Member) → length (collect_from size_match d ds).1 ≡ length ds
  unfolding collect_from
  collect_from-length d [] = refl
  collect_from-length d (e ∷ es) = ground (arith, collect_from-length d es)

  collect_from-All :
      (d : Member) (ds : List Member)
      → All
          (λ e. (e.kind ≡ d.kind) × (size_match d.size e.size ≡ true))
          (collect_from size_match d ds).0
  unfolding collect_from
  collect_from-All d [] = tt
  collect_from-All d (e ∷ es) =
      let rest = collect_from-All d es in
      elim (Bool-cases (joins size_match d e)) [
        | inl t ↦
            let kinds = same_kind→eq e.kind d.kind (ground (arith, t)) in
            rw t ((kinds, ground (arith, t)), rest)
        | inr f ↦ rw f rest
      ]

  find_from-count :
      (p : ℕ → Bool) (n : ℕ) (ds : List Member)
      → length ds ≤ n
      → count_all p (find_from size_match n ds) ≡ count_free p ds
  unfolding find_from
  find_from-count p zero [] h = refl
  find_from-count p zero (d ∷ ds) h = absurd (omega (arith, h))
  find_from-count p (suc n) [] h = refl
  find_from-count p (suc n) (d ∷ ds) h =
      let marked = (collect_from size_match d ds).1 in
      elim (Bool-cases (d.in_array || is_unset d.kind)) [
        | inl t ↦ rw t (omega (arith, find_from-count p n ds (omega (arith, h))))
        | inr f ↦
            let known : is_unset d.kind ≡ false = ground (arith, f) in
            let shorter = collect_from-length d ds in
            rw f (
              omega (
                arith,
                find_from-count p n marked (omega (arith, h, shorter)),
                collect_from-count p d ds known,
              ))
      ]

  find_from-IsArray :
      (n : ℕ) (ds : List Member) → All (IsArray size_match) (find_from size_match n ds)
  unfolding find_from
  find_from-IsArray zero ds = tt
  find_from-IsArray (suc n) [] = tt
  find_from-IsArray (suc n) (d ∷ ds) = elim (Bool-cases (d.in_array || is_unset d.kind)) [
    | inl t ↦ rw t (find_from-IsArray n ds)
    | inr f ↦ rw f (
      (ground (arith, f), collect_from-All d ds),
      find_from-IsArray n (collect_from size_match d ds).1,
    )
  ]

  -- `FindArrays` puts each device that is free into exactly one array and no other device into any,
  -- and the devices of an array have the type of its first device, which is not unset, and its size
  -- within the tolerance.
  pub find_arrays_lem :
      (ds : List Member)
      → ((p : ℕ → Bool) → count_all p (find_arrays size_match ds) ≡ count_free p ds)
        × All (IsArray size_match) (find_arrays size_match ds)
  unfolding find_arrays
  find_arrays_lem ds =
      ((λ p. find_from-count p (length ds) ds (omega arith)), find_from-IsArray (length ds) ds)
