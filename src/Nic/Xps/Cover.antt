-- ===== src/Nic/Xps/Cover.antt =====
-- Every online processor is in the mask of exactly one queue.
pub mod Spread
use gprovision.Nic.Xps.{Masks, add_bit, fill_queue, fill_queues, put_mask}
use gprovision.Nic.Xps.Fill.{fill_queue-Filled, in_masks, occurrences, ones_from, seen, seen_add}
use gprovision.Prelude.{
  All, Bool, Bytes, List, [], arith, equal, equal_iff, false, if◌then◌else◌, inl, inr, length, refl,
  true, ℕ, ◌*◌, ◌+◌, ◌==◌, ◌||◌, ◌∷◌, ◌≡◌, ◌≤◌, ◌⊎◌,
}

unfoldable pub has_queue : Bytes → Masks → Bool
has_queue q [] = false
has_queue q ((k, m) ∷ masks) = let rest = has_queue q masks in if equal k q then true else rest

-- No name occurs twice.
unfoldable pub NoRepeat : List Bytes → Type 0
NoRepeat [] = Unit
NoRepeat (q ∷ qs) = All (λ r. equal q r ≡ false) qs × NoRepeat qs

in_masks-put_mask :
    (c : ℕ) (q : Bytes) (m : List ℕ) (masks : Masks)
    → has_queue q masks ≡ false
    → in_masks c (put_mask q m masks) ≡ in_masks c masks + occurrences c m
unfolding in_masks put_mask has_queue
in_masks-put_mask c q m [] h = omega arith
in_masks-put_mask c q m ((k, v) ∷ masks) h = ground (arith, in_masks-put_mask c q m masks)

pub has_queue-put_mask :
    (r q : Bytes) (m : List ℕ) (masks : Masks)
    → has_queue r (put_mask q m masks) ≡ has_queue r masks || equal q r
unfolding put_mask has_queue
has_queue-put_mask r q m [] = ground arith
has_queue-put_mask r q m ((k, v) ∷ masks) =
    ground (arith, has_queue-put_mask r q m masks, equal_iff k q, equal_iff k r, equal_iff q r)

pub in_masks-add_bit :
    (c : ℕ) (q : Bytes) (i : ℕ) (masks : Masks)
    → has_queue q masks ≡ true
    → in_masks c (add_bit q i masks) ≡ in_masks c masks + (if c == i then 1 else 0)
unfolding in_masks add_bit has_queue occurrences
in_masks-add_bit c q i [] h = absurd (ground arith)
in_masks-add_bit c q i ((k, v) ∷ masks) h = ground (arith, in_masks-add_bit c q i masks)

pub has_queue-add_bit :
    (r q : Bytes) (i : ℕ) (masks : Masks) → has_queue r (add_bit q i masks) ≡ has_queue r masks
unfolding add_bit has_queue
has_queue-add_bit r q i [] = refl
has_queue-add_bit r q i ((k, v) ∷ masks) = ground (arith, has_queue-add_bit r q i masks)

-- What the queues want together.
unfoldable pub demand : ℕ → List Bytes → ℕ
demand per_queue [] = 0
demand per_queue (q ∷ qs) = per_queue + demand per_queue qs

pub demand_lem : (per_queue : ℕ) (qs : List Bytes) → demand per_queue qs ≡ length qs * per_queue
unfolding demand
demand_lem per_queue [] = grind arith
demand_lem per_queue (q ∷ qs) = let later = demand_lem per_queue qs in grind arith

-- What the loop over the queues did.
pub record Taken (cpu_mask : ℕ → Bool) (masks : Masks) (i wanted : ℕ) (masks' : Masks) (j : ℕ)
    : Type 0 where
  pub ahead : i ≤ j
  pub total : (c : ℕ) → in_masks c masks' ≡ in_masks c masks + seen cpu_mask i j c
  pub counted : (64 ≤ j) ⊎ (ones_from cpu_mask i ≡ wanted + ones_from cpu_mask j)
  pub kept : (q : Bytes) → has_queue q masks ≡ true → has_queue q masks' ≡ true

pub still_absent :
    (q : Bytes) (m : List ℕ) (masks : Masks) (qs : List Bytes)
    → All (λ r. equal q r ≡ false) qs
    → All (λ r. has_queue r masks ≡ false) qs
    → All (λ r. has_queue r (put_mask q m masks) ≡ false) qs
still_absent q m masks [] h hs = tt
still_absent q m masks (r ∷ qs) (d, ds) (a, as') =
    (rw (has_queue-put_mask r q m masks, a, d) refl, still_absent q m masks qs ds as')

both_counted :
    (cpu_mask : ℕ → Bool) (i j k a b : ℕ)
    → j ≤ k
    → (64 ≤ j) ⊎ (ones_from cpu_mask i ≡ a + ones_from cpu_mask j)
    → (64 ≤ k) ⊎ (ones_from cpu_mask j ≡ b + ones_from cpu_mask k)
    → (64 ≤ k) ⊎ (ones_from cpu_mask i ≡ a + b + ones_from cpu_mask k)
both_counted cpu_mask i j k a b h (inl e) f = inl (omega arith)
both_counted cpu_mask i j k a b h (inr e) (inl f) = inl f
both_counted cpu_mask i j k a b h (inr e) (inr f) = inr (omega arith)

pub fill_queues-Taken :
    (cpu_mask : ℕ → Bool) (per_queue : ℕ) (qs : List Bytes) (masks : Masks) (i : ℕ)
    → NoRepeat qs
    → All (λ q. has_queue q masks ≡ false) qs
    → Taken cpu_mask masks i
        (demand per_queue qs)
        (fill_queues cpu_mask per_queue qs masks i).0
        (fill_queues cpu_mask per_queue qs masks i).1
unfolding fill_queues demand NoRepeat
fill_queues-Taken cpu_mask per_queue [] masks i d a = record {
  ahead = omega arith;
  total = λ c. ground arith;
  counted = inr (omega arith);
  kept = λ q h. h;
}
fill_queues-Taken cpu_mask per_queue (q ∷ qs) masks i (d, ds) (a, as') =
    let filled = fill_queue 64 cpu_mask i per_queue in
    let f = fill_queue-Filled 64 cpu_mask i per_queue (omega arith) in
    let later =
      fill_queues-Taken cpu_mask per_queue qs (put_mask q filled.0 masks) filled.1 ds
        (still_absent q filled.0 masks qs d as') in
    let end = (fill_queues cpu_mask per_queue qs (put_mask q filled.0 masks) filled.1).1 in
    record {
      ahead = let x = f.ahead in let y = later.ahead in omega arith;
      total = λ c.
          let x = later.total c in
          let y = in_masks-put_mask c q filled.0 masks a in
          let z = f.taken c in
          let w = seen_add cpu_mask i filled.1 end c f.ahead later.ahead in omega arith;
      counted =
          both_counted cpu_mask i filled.1 end per_queue (demand per_queue qs) later.ahead f.counted
            later.counted;
      kept = λ r h. later.kept r (rw (has_queue-put_mask r q filled.0 masks, h) refl);
    }
