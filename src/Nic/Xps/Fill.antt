-- ===== src/Nic/Xps/Fill.antt =====
-- The bits that the queues take, counted.
use gprovision.Nic.Xps.{Masks, bit_at, fill_queue}
use gprovision.Prelude.{
  Bool, Bool-cases, List, [], arith, false, if◌then◌else◌, inl, inr, leb, ltb, refl, suc, true,
  zero, ℕ, ◌&&◌, ◌+◌, ◌-◌, ◌<◌, ◌==◌, ◌∙◌, ◌∷◌, ◌≡◌, ◌≤◌, ◌⊎◌,
}

unfoldable pub occurrences : ℕ → List ℕ → ℕ
occurrences c [] = 0
occurrences c (b ∷ m) = (if c == b then 1 else 0) + occurrences c m

-- In how many masks a bit is.
unfoldable pub in_masks : ℕ → Masks → ℕ
in_masks c [] = 0
in_masks c ((q, m) ∷ masks) = occurrences c m + in_masks c masks

-- The online processors among `n` bits from `i`.
unfoldable pub ones : (ℕ → Bool) → ℕ → ℕ → ℕ
ones cpu_mask i zero = 0
ones cpu_mask i (suc n) = (if cpu_mask i then 1 else 0) + ones cpu_mask (i + 1) n

-- The online processors from the bit `i` on.
unfoldable pub ones_from : (ℕ → Bool) → ℕ → ℕ
ones_from cpu_mask i = ones cpu_mask i (64 - i)

-- 1 for an online processor from the bit `i` up to the bit `j`.
abbrev pub seen : (ℕ → Bool) → ℕ → ℕ → ℕ → ℕ
seen cpu_mask i j c = if leb i c && ltb c j && bit_at cpu_mask c then 1 else 0

pub ones_from-step :
    (cpu_mask : ℕ → Bool) (i : ℕ)
    → i < 64
    → ones_from cpu_mask i ≡ (if bit_at cpu_mask i then 1 else 0) + ones_from cpu_mask (i + 1)
unfolding ones_from ones
ones_from-step cpu_mask i h =
    let bits : 64 - i ≡ suc (64 - (i + 1)) = omega arith in rw bits (ground arith)

pub ones_from_end : (cpu_mask : ℕ → Bool) (i : ℕ) → 64 ≤ i → ones_from cpu_mask i ≡ 0
unfolding ones_from ones
ones_from_end cpu_mask i h = let bits : 64 - i ≡ 0 = omega arith in rw bits refl

pub seen_add :
    (cpu_mask : ℕ → Bool) (i j k c : ℕ)
    → i ≤ j
    → j ≤ k
    → seen cpu_mask i j c + seen cpu_mask j k c ≡ seen cpu_mask i k c
seen_add cpu_mask i j k c h h' = ground arith

pub seen-step :
    (cpu_mask : ℕ → Bool) (i c : ℕ)
    → seen cpu_mask i (i + 1) c ≡ (if bit_at cpu_mask i then (if c == i then 1 else 0) else 0)
seen-step cpu_mask i c = elim (Bool-cases (c == i)) [
  | inl e ↦ let same : c ≡ i = ground arith in rw same (ground arith)
  | inr e ↦ ground arith
]

map_right : {A B C : Type 0} → (B → C) → A ⊎ B → A ⊎ C
map_right f (inl a) = inl a
map_right f (inr b) = inr (f b)

pass_zero :
    (cpu_mask : ℕ → Bool) (i : ℕ)
    → bit_at cpu_mask i ≡ false
    → ones_from cpu_mask i ≡ ones_from cpu_mask (i + 1)
pass_zero cpu_mask i b = elim (Bool-cases (ltb i 64)) [
  | inl h ↦ let step = ones_from-step cpu_mask i (ground arith) in ground (arith, step, b)
  | inr h ↦
      let here = ones_from_end cpu_mask i (ground arith) in
      let there = ones_from_end cpu_mask (i + 1) (ground arith) in omega arith
]

-- What a queue takes: `bits`, up to the bit `j`.
pub record Filled (cpu_mask : ℕ → Bool) (i wanted : ℕ) (bits : List ℕ) (j : ℕ) : Type 0 where
  pub ahead : i ≤ j
  pub taken : (c : ℕ) → occurrences c bits ≡ seen cpu_mask i j c
  pub counted : (64 ≤ j) ⊎ (ones_from cpu_mask i ≡ wanted + ones_from cpu_mask j)

nothing : (cpu_mask : ℕ → Bool) (i wanted : ℕ) → 64 ≤ i → Filled cpu_mask i wanted [] i
unfolding occurrences
nothing cpu_mask i wanted h = record {
  ahead = omega arith;
  taken = λ c. ground arith;
  counted = inl h;
}

take_bit :
    (cpu_mask : ℕ → Bool) (i wanted j : ℕ) (bits : List ℕ)
    → bit_at cpu_mask i ≡ true
    → Filled cpu_mask (i + 1) wanted bits j
    → Filled cpu_mask i (suc wanted) (i ∷ bits) j
unfolding occurrences
take_bit cpu_mask i wanted j bits b f =
    let before : i < 64 = ground arith in
    let step = ones_from-step cpu_mask i before in
    record {
      ahead = let a = f.ahead in omega arith;
      taken = λ c.
          let later = f.taken c in
          let here = seen-step cpu_mask i c in
          let both = seen_add cpu_mask i (i + 1) j c (omega arith) f.ahead in
          (ground (arith, later, here, both, b));
      counted = map_right (λ e. ground (arith, step, b, e)) f.counted;
    }

pass_bit :
    (cpu_mask : ℕ → Bool) (i wanted j : ℕ) (bits : List ℕ)
    → bit_at cpu_mask i ≡ false
    → Filled cpu_mask (i + 1) wanted bits j
    → Filled cpu_mask i wanted bits j
unfolding occurrences
pass_bit cpu_mask i wanted j bits b f = record {
  ahead = let a = f.ahead in omega arith;
  taken = λ c.
      let later = f.taken c in
      let here = seen-step cpu_mask i c in
      let both = seen_add cpu_mask i (i + 1) j c (omega arith) f.ahead in
      (ground (arith, later, here, both, b));
  counted = map_right (λ e. pass_zero cpu_mask i b ∙ e) f.counted;
}

pub fill_queue-Filled :
    (n : ℕ) (cpu_mask : ℕ → Bool) (i wanted : ℕ)
    → 64 ≤ i + n
    → Filled cpu_mask i wanted (fill_queue n cpu_mask i wanted).0 (fill_queue n cpu_mask i wanted).1
unfolding fill_queue occurrences
fill_queue-Filled zero cpu_mask i wanted h = record {
  ahead = omega arith;
  taken = λ c. ground arith;
  counted = inl (omega arith);
}
fill_queue-Filled (suc n) cpu_mask i zero h = record {
  ahead = omega arith;
  taken = λ c. ground arith;
  counted = inr (omega arith);
}
fill_queue-Filled (suc n) cpu_mask i (suc wanted) h = elim (Bool-cases (leb 64 (i + 1))) [
  | inl e ↦ elim (Bool-cases (bit_at cpu_mask i)) [
    | inl b ↦
        rw (e, b)
          (take_bit cpu_mask i wanted (i + 1) [] b (nothing cpu_mask (i + 1) wanted (ground arith)))
    | inr b ↦
        rw (e, b)
          (pass_bit cpu_mask i (suc wanted) (i + 1) [] b
            (nothing cpu_mask (i + 1) (suc wanted) (ground arith)))
  ]
  | inr e ↦ elim (Bool-cases (bit_at cpu_mask i)) [
    | inl b ↦
        rw (e, b)
          (take_bit cpu_mask i wanted (fill_queue n cpu_mask (i + 1) wanted).1
            (fill_queue n cpu_mask (i + 1) wanted).0 b
            (fill_queue-Filled n cpu_mask (i + 1) wanted (omega arith)))
    | inr b ↦
        rw (e, b)
          (pass_bit cpu_mask i (suc wanted) (fill_queue n cpu_mask (i + 1) (suc wanted)).1
            (fill_queue n cpu_mask (i + 1) (suc wanted)).0 b
            (fill_queue-Filled n cpu_mask (i + 1) (suc wanted) (omega arith)))
  ]
]
