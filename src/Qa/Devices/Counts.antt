-- ===== src/Qa/Devices/Counts.antt =====
-- The comparison of devices counts what is on the bus.
use gprovision.Prelude.{
  All, Bytes, List, [], arith, if◌then◌else◌, none, refl, some, sym, true, ℕ, ◌%◌, ◌&&◌, ◌+◌, ◌<◌,
  ◌==◌, ◌↔◌, ◌∙◌, ◌∷◌, ◌≡◌,
}
use gprovision.Qa.Devices.{
  BusDevice, DevRead, bdcompare, bdpopulate, count_device, device_errors, failed, find_device, ids,
  is_device, new_device,
}
use gprovision.Qa.Tally.{tally}

-- The paths at which a device has these IDs.
abbrev pub count_reads : ℕ → ℕ → ℕ → List (Bytes × DevRead) → ℕ
count_reads v d c [] = 0
count_reads v d c ((path, failed) ∷ devs) = count_reads v d c devs
count_reads v d c ((path, ids v' d' c') ∷ devs) =
    (if v' == v && d' == d && c' == c then 1 else 0) + count_reads v d c devs

quantity_in : ℕ → ℕ → ℕ → List BusDevice → ℕ
quantity_in v d c l = elim (find_device v d c l) [ some b ↦ b.quantity | none ↦ 0 ]

quantity_in-tally :
    (v d c v' d' c' : ℕ) (new : BusDevice) (l : List BusDevice)
    → is_device v' d' c' new ≡ true
    → new.quantity ≡ 1
    → quantity_in v d c (tally (is_device v' d' c') count_device new l) % 18446744073709551616
      ≡ (quantity_in v d c l + (if v' == v && d' == d && c' == c then 1 else 0))
        % 18446744073709551616
unfolding quantity_in find_device tally
quantity_in-tally v d c v' d' c' new [] n q = ground arith
quantity_in-tally v d c v' d' c' new (b ∷ l) n q =
    ground (arith, quantity_in-tally v d c v' d' c' new l n q)

is_device_self : (v d c : ℕ) → (v == v && d == d && c == c) ≡ true
is_device_self v d c = ground arith

quantity_in-tally_bound :
    (v d c v' d' c' : ℕ) (new : BusDevice) (l : List BusDevice)
    → new.quantity ≡ 1
    → quantity_in v d c l < 18446744073709551616
    → quantity_in v d c (tally (is_device v' d' c') count_device new l) < 18446744073709551616
unfolding quantity_in find_device tally
quantity_in-tally_bound v d c v' d' c' new [] n q = ground arith
quantity_in-tally_bound v d c v' d' c' new (b ∷ l) n q =
    ground (arith, quantity_in-tally_bound v d c v' d' c' new l n)

module _ (describe : Bytes → ℕ → Bytes) where
  quantity_in-bdpopulate_bound :
      (v d c : ℕ) (devs : List (Bytes × DevRead)) (l : List BusDevice)
      → quantity_in v d c l < 18446744073709551616
      → quantity_in v d c (bdpopulate describe devs l) < 18446744073709551616
  unfolding bdpopulate
  quantity_in-bdpopulate_bound v d c [] l q = q
  quantity_in-bdpopulate_bound v d c ((path, failed) ∷ devs) l q =
      quantity_in-bdpopulate_bound v d c devs l q
  quantity_in-bdpopulate_bound v d c ((path, ids v' d' c') ∷ devs) l q =
      let new = new_device describe path v' d' c' in
      quantity_in-bdpopulate_bound v d c devs (tally (is_device v' d' c') count_device new l)
        (quantity_in-tally_bound v d c v' d' c' new l refl q)

  quantity_in-bdpopulate :
      (v d c : ℕ) (devs : List (Bytes × DevRead)) (l : List BusDevice)
      → quantity_in v d c (bdpopulate describe devs l) % 18446744073709551616
        ≡ (quantity_in v d c l + count_reads v d c devs) % 18446744073709551616
  unfolding bdpopulate
  quantity_in-bdpopulate v d c [] l = omega arith
  quantity_in-bdpopulate v d c ((path, failed) ∷ devs) l = quantity_in-bdpopulate v d c devs l
  quantity_in-bdpopulate v d c ((path, ids v' d' c') ∷ devs) l =
      let new = new_device describe path v' d' c' in
      let l' = tally (is_device v' d' c') count_device new l in
      let one : ℕ = if v' == v && d' == d && c' == c then 1 else 0 in
      let added = quantity_in-tally v d c v' d' c' new l (is_device_self v' d' c') refl in
      omega (arith, quantity_in-bdpopulate v d c devs l', added)

device_errors_iff :
    (r : BusDevice) (l : List BusDevice)
    → (device_errors r l ≡ 0) ↔ (quantity_in r.vendor r.device r.class l ≡ r.quantity)
unfolding device_errors quantity_in
device_errors_iff r l = ground arith

module _ (describe : Bytes → ℕ → Bytes) where
  -- The comparison with the devices that are read from the bus finds no error exactly if each device
  -- that is required was read as often as it is required; counts are of 64 bits.
  pub bdcompare-bdpopulate :
      (required : List BusDevice) (devs : List (Bytes × DevRead))
      → All (λ r. r.quantity < 18446744073709551616) required
      → (bdcompare required (bdpopulate describe devs []) ≡ 0)
        ↔ All
            (λ r. count_reads r.vendor r.device r.class devs % 18446744073709551616 ≡ r.quantity)
            required
  unfolding bdcompare quantity_in find_device
  bdcompare-bdpopulate [] devs q = ((λ e. tt), (λ t. refl))
  bdcompare-bdpopulate (r ∷ required) devs (q, qs) =
      let l = bdpopulate describe devs [] in
      let one = device_errors_iff r l in
      let rest = bdcompare-bdpopulate required devs qs in
      let counted = quantity_in-bdpopulate describe r.vendor r.device r.class devs [] in
      let bound =
        quantity_in-bdpopulate_bound describe r.vendor r.device r.class devs [] (omega arith) in
      let count : quantity_in r.vendor r.device r.class l
          ≡ count_reads r.vendor r.device r.class devs % 18446744073709551616 =
        omega (arith, counted, bound) in
      (
        (λ e. (sym count ∙ one.0 (omega (arith, e)), rest.0 (omega (arith, e)))),
        (λ (p, ps). omega (arith, one.1 (count ∙ p), rest.1 ps)),
      )
