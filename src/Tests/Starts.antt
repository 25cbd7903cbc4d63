-- ===== src/Tests/Starts.antt =====
-- Starts of the machine, and queues of an interface, at concrete inputs.
use gprovision.Boot.Mode.{Boot, Turn, boot_menu, menu_turn, stage2, try_normal_boot}
use gprovision.Boot.Mode.Safe.{asked_erase, has_erase, stage2_lem}
use gprovision.Boot.Root.{get_root, is_listed, valid_id_type}
use gprovision.Boot.Tasks.{Defaults, add_preboot_defaults}
use gprovision.Boot.Tasks.Order.{add_preboot_defaults_lem, count_name}
use gprovision.Cfa.Confirm.{answer_yes}
use gprovision.Cfa.View.{item}
use gprovision.Nic.Xps.{Masks, bit_at, xps_config}
use gprovision.Nic.Xps.Cover.{NoRepeat, has_queue}
use gprovision.Nic.Xps.Cover.Spread.{IsKeyOrder}
use gprovision.Nic.Xps.Exact.{xps_config_lem}
use gprovision.Nic.Xps.Fill.{in_masks, ones}
use gprovision.Prelude.{
  All, Bool, Bytes, List, [], arith, codes, equal, equal_refl, if◌then◌else◌, ltb, refl, some,
  split_on, to_lower, true, ℕ, ◌+◌, ◌∷◌, ◌≡◌, ◌≢◌, ◌⊎◌,
}

-- The user presses a key, chooses the data erase and confirms it twice.
abbrev erase_turn : Turn
erase_turn = record { choice = item 7; answer = answer_yes; reconfirm = answer_yes; ends = true }

abbrev pressed_boot : Boot
pressed_boot = record {
  erase_env = [];
  real_root = codes "LABEL=root";
  pressed = true;
  emergency_files = [];
  found_root = true;
  turns = erase_turn ∷ [];
  is_init = true;
  ends = λ a. true;
}

is_erased : has_erase (stage2 pressed_boot).0 ≡ true
unfolding has_erase stage2 try_normal_boot boot_menu menu_turn equal
is_erased = refl

stage2_lem_example :
    (pressed_boot.erase_env ≢ [])
    ⊎ ((pressed_boot.pressed ≡ true) × (asked_erase pressed_boot.turns ≡ true))
stage2_lem_example = stage2_lem pressed_boot is_erased

-- Tasks that leave their number.
abbrev noted : Defaults (List ℕ)
noted = record {
  log_finalize = λ w. 1 ∷ w;
  umount = λ success w. 2 ∷ w;
  sync = λ w. 3 ∷ w;
  close_lcd = λ w. 4 ∷ w;
}

add_preboot_defaults_lem_example :
    (count_name
        (List ℕ)
        (codes "umount")
        (add_preboot_defaults (List ℕ) noted (add_preboot_defaults (List ℕ) noted []))
      ≡ 1)
    × (count_name
          (List ℕ)
          (codes "sync")
          (add_preboot_defaults (List ℕ) noted (add_preboot_defaults (List ℕ) noted []))
        ≡ 1)
    × (count_name
          (List ℕ)
          (codes "lcd")
          (add_preboot_defaults (List ℕ) noted (add_preboot_defaults (List ℕ) noted []))
        ≡ 1)
    × (count_name
          (List ℕ)
          (codes "log.Finalize")
          (add_preboot_defaults (List ℕ) noted (add_preboot_defaults (List ℕ) noted []))
        ≡ 1 + count_name (List ℕ) (codes "log.Finalize") (add_preboot_defaults (List ℕ) noted []))
add_preboot_defaults_lem_example =
    add_preboot_defaults_lem (List ℕ) noted (add_preboot_defaults (List ℕ) noted [])

root_device : get_root (codes "root") (codes "UUID=1") ≡ codes "/dev/disk/by-uuid/1"
unfolding get_root valid_id_type is_listed split_on to_lower equal
root_device = refl

abbrev names_of : ℕ → Masks → List Bytes
names_of i [] = []
names_of i ((q, m) ∷ masks) = q ∷ names_of i masks

has_own : (q : Bytes) (m : List ℕ) (masks : Masks) → has_queue q ((q, m) ∷ masks) ≡ true
unfolding has_queue
has_own q m masks = rw (equal_refl q) refl

more_queues :
    (q : Bytes) (m : List ℕ) (masks : Masks) (qs : List Bytes)
    → All (λ r. has_queue r masks ≡ true) qs
    → All (λ r. has_queue r ((q, m) ∷ masks) ≡ true) qs
unfolding has_queue
more_queues q m masks [] h = tt
more_queues q m masks (r ∷ qs) (h, hs) = (ground (arith, h), more_queues q m masks qs hs)

all_own : (i : ℕ) (masks : Masks) → All (λ r. has_queue r masks ≡ true) (names_of i masks)
all_own i [] = tt
all_own i ((q, m) ∷ masks) =
    (has_own q m masks, more_queues q m masks (names_of i masks) (all_own i masks))

names_order : IsKeyOrder names_of
unfolding has_queue
names_order i [] q h = absurd (ground arith)
names_order i ((k, m) ∷ masks) q h = (omega arith, all_own i ((k, m) ∷ masks))

abbrev first_three : ℕ → Bool
first_three i = ltb i 3

two_names : NoRepeat (codes "tx-0" ∷ codes "tx-1" ∷ [])
unfolding NoRepeat equal
two_names = ((refl, tt), (tt, tt))

three_ones : 3 ≡ ones first_three 0 64
unfolding ones
three_ones = refl

xps_config_lem_example :
    (masks : Masks) × (xps_config names_of (codes "tx-0" ∷ codes "tx-1" ∷ []) first_three 3
      ≡ some masks)
    × ((c : ℕ) → in_masks c masks ≡ (if bit_at first_three c then 1 else 0))
xps_config_lem_example =
    xps_config_lem names_of (codes "tx-0") (codes "tx-1" ∷ []) first_three 3 names_order two_names
      (omega arith) three_ones
