-- ===== src/Uefi/Boot/Entries.antt =====
-- When the boot entries are complete, and what completes them.
use gprovision.Prelude.{
  All, Bool, Bytes, List, Option-cases, [], arith, false, if◌then◌else◌, length, ltb, none, refl,
  some, true, ℕ, ◌+◌, ◌==◌, ◌||◌, ◌↔◌, ◌∷◌, ◌≡◌,
}
use gprovision.Uefi.Boot.{
  BootEntry, BootEntryVar, BootLabel, Have, check_from, check_missing, fix_missing, is_ours,
  label_erase, label_fr, label_norm, label_of, note_label, ours, ours_present,
}

abbrev pub is_label : BootLabel → BootLabel → Bool
is_label label_fr label_fr = true
is_label label_norm label_norm = true
is_label label_erase label_erase = true
is_label _ _ = false

-- How many entries have a label.
unfoldable pub count_label : BootLabel → List BootEntryVar → ℕ
count_label l [] = 0
count_label l (b ∷ bs) =
    (elim (label_of b) [ none ↦ 0 | some k ↦ if is_label k l then 1 else 0 ]) + count_label l bs

length-ours :
    (bs : List BootEntryVar)
    → length (ours bs)
      ≡ count_label label_fr bs + (count_label label_norm bs + count_label label_erase bs)
unfolding ours is_ours count_label
length-ours [] = refl
length-ours (b ∷ bs) = ground (arith, length-ours bs, Option-cases (label_of b))

count_label-ours :
    (l : BootLabel) (bs : List BootEntryVar) → count_label l (ours bs) ≡ count_label l bs
unfolding ours is_ours count_label
count_label-ours l [] = refl
count_label-ours l (b ∷ bs) = ground (arith, count_label-ours l bs, Option-cases (label_of b))

check_from_lem :
    (h : Have) (bs : List BootEntryVar)
    → ((check_from h bs).normal ≡ (h.normal || ltb 0 (count_label label_norm bs)))
      × ((check_from h bs).fr ≡ (h.fr || ltb 0 (count_label label_fr bs)))
      × ((check_from h bs).erase ≡ (h.erase || ltb 0 (count_label label_erase bs)))
unfolding check_from count_label
check_from_lem h [] = (ground arith, ground arith, ground arith)
check_from_lem h (b ∷ bs) =
    let (a, f, e) = check_from_lem (note_label (label_of b) h) bs in
    (ground (arith, a), ground (arith, f), ground (arith, e))

-- `OursPresent` holds exactly if each of the three labels is on exactly one entry.
ours_present_iff :
    (bs : List BootEntryVar)
    → (ours_present bs ≡ true) ↔ (
        (count_label label_fr bs ≡ 1)
        × (count_label label_norm bs ≡ 1)
        × (count_label label_erase bs ≡ 1))
unfolding ours_present check_missing
ours_present_iff bs =
    let (n, f, e) =
      check_from_lem (record { normal = false; fr = false; erase = false }) (ours bs) in
    ground (
      arith,
      n,
      f,
      e,
      length-ours bs,
      count_label-ours label_fr bs,
      count_label-ours label_norm bs,
      count_label-ours label_erase bs,
    )

-- How many of the entries to add have a label.
unfoldable pub count_added : BootLabel → List BootEntry → ℕ
count_added l [] = 0
count_added l (b ∷ bs) = (if is_label b.label l then 1 else 0) + count_added l bs

abbrev have_label : BootLabel → Have → Bool
have_label label_fr h = h.fr
have_label label_norm h = h.normal
have_label label_erase h = h.erase

module _ (erase_env pri_vol base_args extra_opts : Bytes) where
  abbrev added_for : Have → List BootEntry
  added_for h = fix_missing erase_env pri_vol base_args extra_opts h

  count_added_lem :
      (l : BootLabel) (n f e : Bool)
      → let h : Have = record { normal = n; fr = f; erase = e } in
        count_added l (added_for h) ≡ (if have_label l h then 0 else 1)
  unfolding fix_missing count_added
  count_added_lem l true true true = ground arith
  count_added_lem l true true false = ground arith
  count_added_lem l true false true = ground arith
  count_added_lem l true false false = ground arith
  count_added_lem l false true true = ground arith
  count_added_lem l false true false = ground arith
  count_added_lem l false false true = ground arith
  count_added_lem l false false false = ground arith

  only_norm :
      (n f e : Bool)
      → All
          (λ b. b.auto_boot ≡ is_label b.label label_norm)
          (added_for (record { normal = n; fr = f; erase = e }))
  unfolding fix_missing
  only_norm true true true = tt
  only_norm true true false = (refl, tt)
  only_norm true false true = (refl, tt)
  only_norm true false false = (refl, (refl, tt))
  only_norm false true true = (refl, tt)
  only_norm false true false = (refl, (refl, tt))
  only_norm false false true = (refl, (refl, tt))
  only_norm false false false = (refl, (refl, (refl, tt)))

-- `FixMissing` adds exactly one entry for each label that no entry has, and none for the others; only
-- the entry for a normal boot joins the boot order.
fix_missing_lem :
    (erase_env pri_vol base_args extra_opts : Bytes) (bs : List BootEntryVar) (l : BootLabel)
    → let added = fix_missing erase_env pri_vol base_args extra_opts (check_missing bs) in
      (count_added l added ≡ (if count_label l bs == 0 then 1 else 0))
      × All (λ b. b.auto_boot ≡ is_label b.label label_norm) added
unfolding check_missing
fix_missing_lem erase_env pri_vol base_args extra_opts bs l =
    let (n, f, e) = check_from_lem (record { normal = false; fr = false; erase = false }) bs in
    let h = check_missing bs in
    (
      ground (
        arith,
        count_added_lem erase_env pri_vol base_args extra_opts l h.normal h.fr h.erase,
        n,
        f,
        e,
      ),
      only_norm erase_env pri_vol base_args extra_opts h.normal h.fr h.erase,
    )
