-- ===== src/Cpu/Chosen/Lightest.antt =====
-- `lowestWeight` chooses a processor that is not heavier than the others.
-- The comparison of weights is a strict order.
use gprovision.Cpu.{CpuSet, Topology, UseCount, Weight, contains, lowest_from, weight}
use gprovision.Prelude.{
  Bool, Bool-cases, List, [], ap, arith, false, inl, inr, sym, true, ℕ, ◌==◌, ◌∷◌, ◌≡◌,
}

abbrev pub IsOrder : (Weight → Weight → Bool) → Type 0
IsOrder lighter =
    ((a : Weight) → lighter a a ≡ false)
    × ((a b c : Weight) → lighter a b ≡ true → lighter b c ≡ true → lighter a c ≡ true)

module _ (t : Topology) (uc : UseCount) (ex : CpuSet) (order : IsOrder t.lighter) where
  -- The weight of the first processor is not more than the weight of the second one.
  abbrev lighter_at : ℕ → ℕ → Bool
  lighter_at a b = t.lighter (weight t uc a) (weight t uc b)

  not_heavier :
      (s lowest c : ℕ)
      → lighter_at s lowest ≡ false
      → lighter_at c lowest ≡ true
      → lighter_at s c ≡ false
  not_heavier s lowest c h l = elim (Bool-cases (lighter_at s c)) [
    | inr e ↦ e
    | inl e ↦
        let less = order.1 (weight t uc s) (weight t uc c) (weight t uc lowest) e l in ground arith
  ]

  -- A processor that is not lighter than the lowest so far is not lighter than the result.
  stays :
      (s lowest : ℕ) (cs : List ℕ)
      → lighter_at s lowest ≡ false
      → lighter_at s (lowest_from t uc ex false lowest cs) ≡ false
  unfolding lowest_from
  stays s lowest [] h = h
  stays s lowest (c ∷ cs) h = elim (Bool-cases (contains ex c)) [
    | inl e ↦ rw e (stays s lowest cs h)
    | inr e ↦ elim (Bool-cases (lighter_at c lowest)) [
      | inl l ↦ rw (e, l) (stays s c cs (not_heavier s lowest c h l))
      | inr l ↦ rw (e, l) (stays s lowest cs h)
    ]
  ]

  left_over :
      (s c : ℕ) (cs : List ℕ)
      → contains (c ∷ cs) s ≡ true
      → contains ex s ≡ false
      → contains ex c ≡ true
      → contains cs s ≡ true
  unfolding contains
  left_over s c cs m a e = elim (Bool-cases (s == c)) [
    | inl same ↦ let eq : s ≡ c = ground arith in absurd (ground (arith, sym (ap (contains ex) eq)))
    | inr other ↦ ground arith
  ]

  same_weight :
      (s c lowest : ℕ) → s == c ≡ true → lighter_at c lowest ≡ false → lighter_at s lowest ≡ false
  same_weight s c lowest e h = let same : s ≡ c = ground arith in rw same h

  later :
      (s lowest : ℕ) (cs : List ℕ)
      → contains cs s ≡ true
      → contains ex s ≡ false
      → lighter_at s (lowest_from t uc ex false lowest cs) ≡ false
  unfolding lowest_from contains
  later s lowest [] m a = absurd (ground arith)
  later s lowest (c ∷ cs) m a = elim (Bool-cases (contains ex c)) [
    | inl e ↦ rw e (later s lowest cs (left_over s c cs m a e) a)
    | inr e ↦ elim (Bool-cases (s == c)) [
      | inl same ↦ elim (Bool-cases (lighter_at c lowest)) [
        | inl l ↦ rw (e, l) (stays s c cs (same_weight s c c same (order.0 (weight t uc c))))
        | inr l ↦ rw (e, l) (stays s lowest cs (same_weight s c lowest same l))
      ]
      | inr other ↦
          let m' : contains cs s ≡ true = ground arith in
          elim (Bool-cases (lighter_at c lowest)) [
            | inl l ↦ rw (e, l) (later s c cs m' a)
            | inr l ↦ rw (e, l) (later s lowest cs m' a)
          ]
    ]
  ]

  -- If the comparison of weights is a strict order, none of the processors that the loop of
  -- `lowestWeight` visits outside of the excluded ones is lighter than the one it returns,
  -- whatever it starts with.
  pub lowest_from_lem :
      (s lowest : ℕ) (cs : List ℕ)
      → contains cs s ≡ true
      → contains ex s ≡ false
      → t.lighter (weight t uc s) (weight t uc (lowest_from t uc ex true lowest cs)) ≡ false
  unfolding lowest_from contains
  lowest_from_lem s lowest [] m a = absurd (ground arith)
  lowest_from_lem s lowest (c ∷ cs) m a = elim (Bool-cases (contains ex c)) [
    | inl e ↦ rw e (lowest_from_lem s lowest cs (left_over s c cs m a e) a)
    | inr e ↦ elim (Bool-cases (s == c)) [
      | inl same ↦ rw e (stays s c cs (same_weight s c c same (order.0 (weight t uc c))))
      | inr other ↦ rw e (later s c cs (ground arith) a)
    ]
  ]
