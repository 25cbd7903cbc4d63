-- ===== src/Boot/Mode/Safe.antt =====
-- When the disks are erased, and when a factory restore begins.
use gprovision.Boot.Mode.{
  Action, Boot, Run, Turn, and_then, boot_menu, ended, erase, is_na, is_yes, menu_turn, no_more,
  power_off, reboot, recover, restore_defaults, restore_files, restore_menu, restore_oldest,
  returned, stage2, switch_root, then_run, try_normal_boot, waiting,
}
use gprovision.Cfa.Confirm.{Answer, answer_na, answer_no, answer_yes}
use gprovision.Cfa.View.{Choice, choice_cancel, choice_none, item}
use gprovision.Prelude.{
  Bool, Bool-cases, List, [], arith, equal, equal_iff, false, if◌then◌else◌, inl, inr, refl, true,
  ◌&&◌, ◌++◌, ◌==◌, ◌||◌, ◌∷◌, ◌≡◌, ◌≢◌, ◌⊎◌,
}

abbrev is_erase : Action → Bool
is_erase erase = true
is_erase a = false

-- Whether a run has a data erase.
unfoldable pub has_erase : List Action → Bool
has_erase [] = false
has_erase (a ∷ as') = let rest = has_erase as' in is_erase a || rest

abbrev asks : Choice → Answer → Bool
asks choice_none a = false
asks choice_cancel a = false
asks (item n) a = n == 7 && is_yes a

-- Whether the user chose a data erase from the boot menu and answered yes to the second question.
unfoldable pub asked_erase : List Turn → Bool
asked_erase [] = false
asked_erase (t ∷ ts) = let rest = asked_erase ts in asks t.choice t.reconfirm || rest

has_erase-append : (as' bs : List Action) → has_erase (as' ++ bs) ≡ has_erase as' || has_erase bs
unfolding has_erase
has_erase-append [] bs = refl
has_erase-append (a ∷ as') bs = ground (arith, has_erase-append as' bs)

has_erase-then_run :
    (e : Bool) (a : Action) (r : Run)
    → is_erase a ≡ false
    → has_erase r.0 ≡ false
    → has_erase (then_run e a r).0 ≡ false
unfolding has_erase
has_erase-then_run true a r h hr = rw h refl
has_erase-then_run false a r h hr = rw (h, hr) refl

has_erase_next :
    (a : Answer) (again : Run)
    → has_erase again.0 ≡ false
    → has_erase (if is_na a then again else no_more).0 ≡ false
unfolding has_erase
has_erase_next answer_na again h = h
has_erase_next answer_no again h = refl
has_erase_next answer_yes again h = refl

has_erase-menu_turn :
    (c : Choice) (t : Turn) (again : Run)
    → asks c t.reconfirm ≡ false
    → has_erase again.0 ≡ false
    → has_erase (menu_turn c t again).0 ≡ false
unfolding menu_turn has_erase
has_erase-menu_turn choice_none t again h k =
    has_erase-then_run t.ends switch_root no_more refl refl
has_erase-menu_turn choice_cancel t again h k =
    has_erase-then_run t.ends switch_root no_more refl refl
has_erase-menu_turn (item n) t again h k =
    let next = has_erase_next t.answer again k in
    let after = if is_na t.answer then again else no_more in
    ground (
      arith,
      h,
      k,
      has_erase-then_run t.ends switch_root no_more refl refl,
      has_erase-then_run t.ends power_off after refl next,
      has_erase-then_run t.ends restore_defaults after refl next,
      has_erase-then_run t.ends restore_oldest after refl next,
      has_erase-then_run t.ends restore_menu again refl k,
      has_erase-then_run t.ends switch_root after refl next,
    )

has_erase-boot_menu : (ts : List Turn) → asked_erase ts ≡ false → has_erase (boot_menu ts).0 ≡ false
unfolding has_erase asked_erase boot_menu
has_erase-boot_menu [] h = refl
has_erase-boot_menu (t ∷ ts) h =
    has_erase-menu_turn t.choice t (boot_menu ts) (ground arith)
      (has_erase-boot_menu ts (ground arith))

has_erase-recover : (b : Boot) → has_erase (recover b).0 ≡ false
unfolding recover has_erase
has_erase-recover b =
    has_erase-then_run (b.ends restore_defaults) restore_defaults
      (then_run (b.ends (reboot false)) (reboot false) no_more) refl
      (has_erase-then_run (b.ends (reboot false)) (reboot false) no_more refl refl)

has_erase-try_normal_boot :
    (b : Boot)
    → (b.pressed && asked_erase b.turns) ≡ false
    → has_erase (try_normal_boot b).0 ≡ false
unfolding try_normal_boot has_erase
has_erase-try_normal_boot b h = elim (Bool-cases b.pressed) [
  | inl p ↦ rw p (has_erase-boot_menu b.turns (ground arith))
  | inr p ↦ rw p (
      ground (
        arith,
        has_erase-then_run (b.ends (restore_files b.emergency_files))
            (restore_files b.emergency_files)
            (then_run (b.ends (reboot true)) (reboot true) no_more) refl
            (has_erase-then_run (b.ends (reboot true)) (reboot true) no_more refl refl),
        has_erase-then_run (b.ends switch_root) switch_root no_more refl refl,
      ))
]

has_erase-and_then :
    (r rest : Run)
    → has_erase r.0 ≡ false
    → has_erase rest.0 ≡ false
    → has_erase (and_then r rest).0 ≡ false
has_erase-and_then (as', returned) rest h k = rw (has_erase-append as' rest.0, h, k) refl
has_erase-and_then (as', ended) rest h k = h
has_erase-and_then (as', waiting) rest h k = h

quiet_stage2 :
    (b : Boot)
    → equal b.erase_env [] ≡ true
    → has_erase (try_normal_boot b).0 ≡ false
    → has_erase (stage2 b).0 ≡ false
unfolding stage2 has_erase
quiet_stage2 b e safe =
    let later = has_erase-recover b in
    rw e (
      ground (
        arith,
        later,
        has_erase-and_then (try_normal_boot b) (recover b) safe later,
        has_erase-and_then (try_normal_boot b) no_more safe refl,
      ))

-- A start of the machine that has a data erase was told so by its environment, or a key was pressed
-- and the user chose the data erase from the boot menu and answered yes to the second question,
-- whatever the actions do.
pub stage2_lem :
    (b : Boot)
    → has_erase (stage2 b).0 ≡ true
    → (b.erase_env ≢ []) ⊎ ((b.pressed ≡ true) × (asked_erase b.turns ≡ true))
stage2_lem b h = elim (Bool-cases (equal b.erase_env [])) [
  | inr e ↦ inl (λ same. absurd (ground (arith, e, (equal_iff b.erase_env []).1 same)))
  | inl e ↦ elim (Bool-cases (b.pressed && asked_erase b.turns)) [
    | inl both ↦ inr (ground arith, ground arith)
    | inr without ↦
        let quiet = quiet_stage2 b e (has_erase-try_normal_boot b without) in
        absurd (ground (arith, h, quiet))
  ]
]
