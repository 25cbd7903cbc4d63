-- ===== src/Nic/Xps/Exact.antt =====
-- The masks at the end.
use gprovision.Nic.Xps.{
  Masks, Rest, bit_at, fill_queue, fill_queues, put_mask, shares, spread_rest, xps_config,
}
use gprovision.Nic.Xps.Cover.{
  NoRepeat, demand, demand_lem, fill_queues-Taken, has_queue, has_queue-put_mask, still_absent,
}
use gprovision.Nic.Xps.Cover.Spread.{Good, IsKeyOrder, ones_few, spread_rest-Good}
use gprovision.Nic.Xps.Fill.{in_masks, ones, ones_from}
use gprovision.Prelude.{
  All, Bool, Bool-cases, Bytes, List, [], ap, arith, equal_refl, false, if◌then◌else◌, inl, inr,
  length, ltb, refl, some, suc, sym, true, zero, ℕ, ◌%◌, ◌*◌, ◌+◌, ◌-◌, ◌/◌, ◌<◌, ◌==◌, ◌∙◌, ◌∷◌,
  ◌≡◌, ◌≤◌, ◌⊎◌,
}

ones_none :
    (cpu_mask : ℕ → Bool) (i n c : ℕ)
    → ones cpu_mask i n ≡ 0
    → i ≤ c
    → c < i + n
    → cpu_mask c ≡ false
unfolding ones
ones_none cpu_mask i zero c e h h' = absurd (omega arith)
ones_none cpu_mask i (suc n) c e h h' = elim (Bool-cases (c == i)) [
  | inl same ↦ let here : c ≡ i = ground arith in rw here (ground arith)
  | inr other ↦ ones_none cpu_mask (i + 1) n c (ground arith) (ground arith) (omega arith)
]

ones_from_none :
    (cpu_mask : ℕ → Bool) (i c : ℕ) → ones_from cpu_mask i ≡ 0 → i ≤ c → bit_at cpu_mask c ≡ false
unfolding ones_from
ones_from_none cpu_mask i c e h = elim (Bool-cases (ltb c 64)) [
  | inr f ↦ rw f refl
  | inl f ↦ let off = ones_none cpu_mask i (64 - i) c e h (ground arith) in ground arith
]

divided : (a b : ℕ) → 0 < b → (a ≡ a / b * b + a % b) × (a % b < b)
divided a b h = (grind arith, grind arith)

shares_lem :
    (nr_cpus nrq j rest : ℕ)
    → 0 < nrq
    → nr_cpus < 65536
    → (64 ≤ j) ⊎ (nr_cpus ≡ nrq * (shares nr_cpus nrq).0 + rest)
    → (64 ≤ j) ⊎ ((shares nr_cpus nrq).1 ≡ rest)
unfolding shares
shares_lem nr_cpus nrq j rest h b (inl e) = inl e
shares_lem nr_cpus nrq j rest h b (inr e) = elim (Bool-cases (nr_cpus / nrq == 0)) [
  | inl z ↦
      let first : (shares nr_cpus nrq).0 ≡ 1 = rw (shares, z) refl in
      let enough : nr_cpus ≡ nrq * 1 + rest = e ∙ ap (λ x. nrq * x + rest) first in
      let none_each : nr_cpus / nrq ≡ 0 = ground (arith, z) in
      let d = divided nr_cpus nrq h in
      let small : nr_cpus ≡ 0 * nrq + nr_cpus % nrq =
        d.0 ∙ ap (λ x. x * nrq + nr_cpus % nrq) none_each in
      let less = d.1 in absurd (omega arith)
  | inr z ↦
      let first : (shares nr_cpus nrq).0 ≡ nr_cpus / nrq = rw (shares, z) refl in
      let enough : nr_cpus ≡ nrq * (nr_cpus / nrq) + rest = e ∙ ap (λ x. nrq * x + rest) first in
      let d = (divided nr_cpus nrq h).0 in
      let same : nr_cpus % nrq ≡ rest = grind arith in rw z (inr same)
]

nothing_there : (qs : List Bytes) → All (λ q. has_queue q [] ≡ false) qs
unfolding has_queue
nothing_there [] = tt
nothing_there (q ∷ qs) = (refl, nothing_there qs)

first_kept :
    (cpu_mask : ℕ → Bool) (per_queue : ℕ) (q : Bytes) (qs : List Bytes)
    → NoRepeat (q ∷ qs)
    → has_queue q (fill_queues cpu_mask per_queue (q ∷ qs) [] 0).0 ≡ true
unfolding fill_queues NoRepeat
first_kept cpu_mask per_queue q qs (d, ds) =
    let filled = fill_queue 64 cpu_mask 0 per_queue in
    let t =
      fill_queues-Taken cpu_mask per_queue qs (put_mask q filled.0 []) filled.1 ds
        (still_absent q filled.0 [] qs d (nothing_there qs)) in
    t.kept q (rw (has_queue-put_mask q q filled.0 [], equal_refl q) (ground arith))

all_seen :
    (cpu_mask : ℕ → Bool) (s : Rest)
    → Good cpu_mask s
    → (64 ≤ s.next) ⊎ (s.remaining ≡ 0)
    → (c : ℕ) → in_masks c s.masks ≡ (if bit_at cpu_mask c then 1 else 0)
all_seen cpu_mask s g (inl e) c = let t = g.total c in ground arith
all_seen cpu_mask s g (inr z) c = elim g.counted [
  | inl e ↦ let t = g.total c in ground arith
  | inr e ↦
      let t = g.total c in
      elim (Bool-cases (ltb c s.next)) [
        | inl before ↦ ground arith
        | inr after ↦
            let off = ones_from_none cpu_mask s.next c (sym e ∙ z) (ground arith) in ground arith
      ]
]

-- If the order of a map's keys has keys of the map only, and some if it has any, and there are
-- queues, fewer than 2^16 and without repeated names, and the number of processors is that of the
-- bits of the mask, `XpsConfig` does not panic and puts each online processor into the mask of
-- exactly one queue and no other processor into any.
pub xps_config_lem :
    (order : ℕ → Masks → List Bytes) (q : Bytes) (qs : List Bytes) (cpu_mask : ℕ → Bool)
    (nr_cpus : ℕ)
    → IsKeyOrder order
    → NoRepeat (q ∷ qs)
    → length (q ∷ qs) < 65536
    → nr_cpus ≡ ones cpu_mask 0 64
    → (masks : Masks) × (xps_config order (q ∷ qs) cpu_mask nr_cpus ≡ some masks)
      × ((c : ℕ) → in_masks c masks ≡ (if bit_at cpu_mask c then 1 else 0))
unfolding xps_config
xps_config_lem order q qs cpu_mask nr_cpus o d few_names count =
    let nrq = length (q ∷ qs) % 65536 in
    let queues : nrq ≡ length (q ∷ qs) = omega arith in
    let some_queue : (nrq == 0) ≡ false = ground arith in
    let share = shares nr_cpus nrq in
    let filled = fill_queues cpu_mask share.0 (q ∷ qs) [] 0 in
    let start : Rest = record { masks = filled.0; remaining = share.1; next = filled.1 } in
    let t = fill_queues-Taken cpu_mask share.0 (q ∷ qs) [] 0 d (nothing_there (q ∷ qs)) in
    let few = ones_few cpu_mask 0 64 in
    let wanted : demand share.0 (q ∷ qs) ≡ nrq * share.0 =
      demand_lem share.0 (q ∷ qs) ∙ ap (λ x. x * share.0) (sym queues) in
    let all : ones_from cpu_mask 0 ≡ nr_cpus = unfold ones_from in sym count in
    let taken : (64 ≤ filled.1) ⊎ (nr_cpus ≡ nrq * share.0 + ones_from cpu_mask filled.1) =
      elim t.counted [
        | inl e ↦ inl e
        | inr e ↦ inr (sym all ∙ e ∙ ap (λ x. x + ones_from cpu_mask filled.1) wanted)
      ] in
    let good : Good cpu_mask start = record {
      total = λ c.
          let none_yet : in_masks c [] ≡ 0 = unfold in_masks in refl in
          let x = t.total c in omega arith;
      counted =
          shares_lem nr_cpus nrq filled.1 (ones_from cpu_mask filled.1) (ground arith) (omega arith)
            taken;
    } in
    let end =
      spread_rest-Good 64 cpu_mask order start q o (omega arith)
        (first_kept cpu_mask share.0 q qs d) good in
    (
      (spread_rest 64 cpu_mask order start).masks,
      rw some_queue refl,
      all_seen cpu_mask (spread_rest 64 cpu_mask order start) end.0 end.1,
    )
