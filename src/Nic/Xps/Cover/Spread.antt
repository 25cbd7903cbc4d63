-- ===== src/Nic/Xps/Cover/Spread.antt =====
-- The loop over the remainder.
use gprovision.Cpu.Counts.{keys}
use gprovision.Nic.Xps.{Masks, Rest, bit_at, spread_rest, visit_queue, visit_queues}
use gprovision.Nic.Xps.Cover.{has_queue, has_queue-add_bit, in_masks-add_bit}
use gprovision.Nic.Xps.Fill.{in_masks, ones, ones_from, ones_from-step, seen, seen-step, seen_add}
use gprovision.Prelude.{
  All, Bool, Bool-cases, Bytes, List, [], arith, if◌then◌else◌, inl, inr, leb, length, ltb, refl,
  suc, true, zero, ℕ, ◌+◌, ◌-◌, ◌<◌, ◌==◌, ◌∙◌, ◌∷◌, ◌≡◌, ◌≤◌, ◌⊎◌,
}

-- Up to the next bit, each online processor is in one mask; what remains are the online processors
-- from there on.
pub record Good (cpu_mask : ℕ → Bool) (s : Rest) : Type 0 where
  pub total : (c : ℕ) → in_masks c s.masks ≡ seen cpu_mask 0 s.next c
  pub counted : (64 ≤ s.next) ⊎ (s.remaining ≡ ones_from cpu_mask s.next)

-- The order of the keys of a map: some keys, if it has any.
abbrev pub IsKeyOrder : (ℕ → Masks → List Bytes) → Type 0
IsKeyOrder order =
    (i : ℕ) (masks : Masks) (q : Bytes)
    → has_queue q masks ≡ true
    → (1 ≤ length (order i masks)) × All (λ r. has_queue r masks ≡ true) (order i masks)

pub ones_few : (cpu_mask : ℕ → Bool) (i n : ℕ) → ones cpu_mask i n ≤ n
unfolding ones
ones_few cpu_mask i zero = omega arith
ones_few cpu_mask i (suc n) = ground (arith, ones_few cpu_mask (i + 1) n)

ones_from_few : (cpu_mask : ℕ → Bool) (i : ℕ) → ones_from cpu_mask i ≤ 64
unfolding ones_from
ones_from_few cpu_mask i = let few = ones_few cpu_mask i (64 - i) in omega arith

visit_queue-next :
    (cpu_mask : ℕ → Bool) (q : Bytes) (s : Rest) → (visit_queue cpu_mask q s).next ≡ s.next + 1
unfolding visit_queue
visit_queue-next cpu_mask q s = elim (Bool-cases (bit_at cpu_mask s.next)) [
  | inl b ↦ rw b refl
  | inr b ↦ rw b refl
]

visit_queue_keeps :
    (cpu_mask : ℕ → Bool) (q r : Bytes) (s : Rest)
    → has_queue r (visit_queue cpu_mask q s).masks ≡ has_queue r s.masks
unfolding visit_queue
visit_queue_keeps cpu_mask q r s = elim (Bool-cases (bit_at cpu_mask s.next)) [
  | inl b ↦ rw b (has_queue-add_bit r q s.next s.masks)
  | inr b ↦ rw b refl
]

visit_queue-Good :
    (cpu_mask : ℕ → Bool) (q : Bytes) (s : Rest)
    → s.next < 64
    → has_queue q s.masks ≡ true
    → Good cpu_mask s
    → Good cpu_mask (visit_queue cpu_mask q s)
unfolding visit_queue
visit_queue-Good cpu_mask q s h k g =
    let step = ones_from-step cpu_mask s.next h in
    let few = ones_from_few cpu_mask s.next in
    let here : (c : ℕ)
        → seen cpu_mask s.next (s.next + 1) c
          ≡ (if bit_at cpu_mask s.next then (if c == s.next then 1 else 0) else 0) =
      λ c. seen-step cpu_mask s.next c in
    let both : (c : ℕ)
        → seen cpu_mask 0 s.next c + seen cpu_mask s.next (s.next + 1) c
          ≡ seen cpu_mask 0 (s.next + 1) c =
      λ c. seen_add cpu_mask 0 s.next (s.next + 1) c (omega arith) (omega arith) in
    elim (Bool-cases (bit_at cpu_mask s.next)) [
      | inl b ↦ rw b (record {
        total = λ c.
            let t = g.total c in
            let a = in_masks-add_bit c q s.next s.masks k in ground (arith, here c, both c, b);
        counted = elim g.counted [
          | inl e ↦ inl (omega arith)
          | inr e ↦ inr (ground (arith, step, few, b, e))
        ];
      })
      | inr b ↦ rw b (record {
        total = λ c. let t = g.total c in ground (arith, here c, both c, b);
        counted = elim g.counted [
          | inl e ↦ inl (omega arith)
          | inr e ↦ inr (ground (arith, step, b, e))
        ];
      })
    ]

all_kept :
    (cpu_mask : ℕ → Bool) (q : Bytes) (s : Rest) (qs : List Bytes)
    → All (λ r. has_queue r s.masks ≡ true) qs
    → All (λ r. has_queue r (visit_queue cpu_mask q s).masks ≡ true) qs
all_kept cpu_mask q s [] h = tt
all_kept cpu_mask q s (r ∷ qs) (h, hs) =
    (visit_queue_keeps cpu_mask q r s ∙ h, all_kept cpu_mask q s qs hs)

-- What a round does.
record Visited (cpu_mask : ℕ → Bool) (s s' : Rest) (visits : ℕ) : Type 0 where
  good : Good cpu_mask s'
  kept : (r : Bytes) → has_queue r s'.masks ≡ has_queue r s.masks
  ahead : s.next + (if ltb 0 visits then 1 else 0) ≤ s'.next

visit_queues-Visited :
    (cpu_mask : ℕ → Bool) (qs : List Bytes) (s : Rest)
    → s.next < 64
    → All (λ r. has_queue r s.masks ≡ true) qs
    → Good cpu_mask s
    → Visited cpu_mask s (visit_queues cpu_mask qs s) (length qs)
unfolding visit_queues
visit_queues-Visited cpu_mask [] s h a g = record {
  good = g;
  kept = λ r. refl;
  ahead = omega arith;
}
visit_queues-Visited cpu_mask (q ∷ qs) s h (a, as') g =
    let s' = visit_queue cpu_mask q s in
    let g' = visit_queue-Good cpu_mask q s h a g in
    let next = visit_queue-next cpu_mask q s in
    elim (Bool-cases (leb 64 s'.next)) [
      | inl e ↦
          rw e (record {
            good = g';
            kept = λ r. visit_queue_keeps cpu_mask q r s;
            ahead = ground arith;
          })
      | inr e ↦
          let later =
            visit_queues-Visited cpu_mask qs s' (ground arith) (all_kept cpu_mask q s qs as') g' in
          rw e (record {
            good = later.good;
            kept = λ r. later.kept r ∙ visit_queue_keeps cpu_mask q r s;
            ahead = let x = later.ahead in ground arith;
          })
    ]

pub spread_rest-Good :
    (n : ℕ) (cpu_mask : ℕ → Bool) (order : ℕ → Masks → List Bytes) (s : Rest) (q : Bytes)
    → IsKeyOrder order
    → 64 ≤ s.next + n
    → has_queue q s.masks ≡ true
    → Good cpu_mask s
    → Good cpu_mask (spread_rest n cpu_mask order s)
      × ((64 ≤ (spread_rest n cpu_mask order s).next)
          ⊎ ((spread_rest n cpu_mask order s).remaining ≡ 0))
unfolding spread_rest
spread_rest-Good zero cpu_mask order s q o h k g = (g, inl (omega arith))
spread_rest-Good (suc n) cpu_mask order s q o h k g = elim (Bool-cases (ltb 0 s.remaining)) [
  | inr e ↦ rw e (g, inr (ground arith))
  | inl e ↦ elim (Bool-cases (ltb s.next 64)) [
    | inr f ↦ rw (e, f) (g, inl (ground arith))
    | inl f ↦
        let (some_key, keys) = o s.next s.masks q k in
        let v = visit_queues-Visited cpu_mask (order s.next s.masks) s (ground arith) keys g in
        let enough = v.ahead in
        rw (e, f)
          (spread_rest-Good n cpu_mask order (visit_queues cpu_mask (order s.next s.masks) s) q o
            (ground arith) (v.kept q ∙ k) v.good)
  ]
]
