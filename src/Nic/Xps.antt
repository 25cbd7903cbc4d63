-- ===== src/Nic/Xps.antt =====
-- pkg/hw/nic/xps.go: the masks of processors for the transmission queues of an interface. A mask of
-- 64 bits is the list of its bits; the mask of the online processors is a test of a bit.
pub mod Fill
pub mod Cover
pub mod Exact
use gprovision.Prelude.{
  Bool, Bytes, List, Option, [], equal, if◌then◌else◌, leb, length, ltb, none, some, suc, zero, ℕ,
  ◌%◌, ◌&&◌, ◌+◌, ◌-◌, ◌/◌, ◌==◌, ◌^◌, ◌∷◌,
}

abbrev pub Masks : Type 0
Masks = List (Bytes × List ℕ)

-- `(cpuMask >> i) & 1`: 0 from the bit 64 on.
abbrev pub bit_at : (ℕ → Bool) → ℕ → Bool
bit_at cpu_mask i = ltb i 64 && cpu_mask i

-- The loop over the bits for a queue, with the processors that it still wants; it ends at the bit
-- 64 at the latest.
unfoldable pub fill_queue : ℕ → (ℕ → Bool) → ℕ → ℕ → List ℕ × ℕ
fill_queue zero cpu_mask i wanted = ([], i)
fill_queue (suc n) cpu_mask i zero = ([], i)
fill_queue (suc n) cpu_mask i (suc wanted) =
    let later = fill_queue n cpu_mask (i + 1) (if bit_at cpu_mask i then wanted else suc wanted) in
    let rest = if leb 64 (i + 1) then ([], i + 1) else later in
    (if bit_at cpu_mask i then i ∷ rest.0 else rest.0, rest.1)

-- `qMasks[q] = qMask`
unfoldable pub put_mask : Bytes → List ℕ → Masks → Masks
put_mask q m [] = (q, m) ∷ []
put_mask q m ((k, v) ∷ masks) =
    let later = put_mask q m masks in if equal k q then (q, m) ∷ masks else (k, v) ∷ later

-- The loop over the queues, with the next bit.
unfoldable pub fill_queues : (ℕ → Bool) → ℕ → List Bytes → Masks → ℕ → Masks × ℕ
fill_queues cpu_mask per_queue [] masks i = (masks, i)
fill_queues cpu_mask per_queue (q ∷ qs) masks i =
    let filled = fill_queue 64 cpu_mask i per_queue in
    fill_queues cpu_mask per_queue qs (put_mask q filled.0 masks) filled.1

-- `m |= 1 << i` for the mask of a queue.
unfoldable pub add_bit : Bytes → ℕ → Masks → Masks
add_bit q i [] = []
add_bit q i ((k, v) ∷ masks) =
    let later = add_bit q i masks in if equal k q then (k, i ∷ v) ∷ masks else (k, v) ∷ later

-- What the loop over the remainder changes: the masks, `cRemaining` and the next bit.
pub record Rest : Type 0 where
  pub masks : Masks
  pub remaining : ℕ
  pub next : ℕ

-- A visit of a queue.
unfoldable pub visit_queue : (ℕ → Bool) → Bytes → Rest → Rest
visit_queue cpu_mask q s =
    if bit_at cpu_mask s.next
    then record {
      masks = add_bit q s.next s.masks;
      remaining = (s.remaining + 65535) % 2 ^ 16;
      next = s.next + 1;
    }
    else record s { next = s.next + 1 }

-- The inner loop, over the queues in the order of the map.
unfoldable pub visit_queues : (ℕ → Bool) → List Bytes → Rest → Rest
visit_queues cpu_mask [] s = s
visit_queues cpu_mask (q ∷ qs) s =
    let s' = visit_queue cpu_mask q s in
    let later = visit_queues cpu_mask qs s' in if leb 64 s'.next then s' else later

-- The outer loop. The order of the map's keys is a parameter; it may change with each round.
unfoldable pub spread_rest : ℕ → (ℕ → Bool) → (ℕ → Masks → List Bytes) → Rest → Rest
spread_rest zero cpu_mask order s = s
spread_rest (suc n) cpu_mask order s =
    let later = spread_rest n cpu_mask order (visit_queues cpu_mask (order s.next s.masks) s) in
    if ltb 0 s.remaining && ltb s.next 64 then later else s

-- The processors for each queue, and what remains.
unfoldable pub shares : ℕ → ℕ → ℕ × ℕ
shares nr_cpus nrq =
    if nr_cpus / nrq == 0
    then (1, (nr_cpus + 2 ^ 16 - nrq) % 2 ^ 16)
    else (nr_cpus / nrq, nr_cpus % nrq)

-- `XpsConfig`; `none` for the panic when there is no queue.
unfoldable pub xps_config : (ℕ → Masks → List Bytes) → List Bytes → (ℕ → Bool) → ℕ → Option Masks
xps_config order qnames cpu_mask nr_cpus =
    let nrq = length qnames % 2 ^ 16 in
    let share = shares nr_cpus nrq in
    let filled = fill_queues cpu_mask share.0 qnames [] 0 in
    let spread =
      spread_rest 64 cpu_mask order
        (record { masks = filled.0; remaining = share.1; next = filled.1 }) in
    if nrq == 0 then none else some spread.masks
