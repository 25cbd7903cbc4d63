-- ===== src/Intel/Loaded.antt =====
-- The VLANs of an export that was read.
use mathlib.Core.Path.{subst}
use gprovision.Intel.{
  IntelMap, LoadResult, WinNic, adapter, add_vlan, e_load, going, insert_colons, load_adapter,
  load_fields, load_intel, load_mark, load_record, load_setting, load_vlan, load_vlan_setting,
  lookup, panicked, set_children, set_friendly, set_option, update, vlan_child,
}
use gprovision.Intel.Vlans.{
  Promise, VlansHaveParents, children-Keeps, fresh-VlansHaveParents, friendly-Keeps, has_parent,
  parent_marked, update-VlansHaveParents,
}
use gprovision.Prelude.{
  Bool, Bytes, List, Option, Option-cases, [], arith, codes, equal, false, has_suffix,
  if◌then◌else◌, inl, inr, none, not, refl, some, trim_space, trim_suffix, true, ℕ, ◌++◌, ◌||◌, ◌∷◌,
  ◌≡◌, ◌⊎◌,
}

if-Promise : (b : Bool) (x y : LoadResult) → Promise x → Promise y → Promise (if b then x else y)
if-Promise true x y p q = p
if-Promise false x y p q = q

load_mark-Promise :
    (section mark : Bytes) (ifaces : IntelMap)
    → VlansHaveParents ifaces
    → Promise (load_mark section mark ifaces)
unfolding load_mark
load_mark-Promise section mark ifaces h =
    if-Promise (has_suffix mark (codes "Start")) _ _ (if-Promise (not (equal section [])) _ _ h h) (
      if-Promise (has_suffix mark (codes "End")) _ _
        (if-Promise (equal section []) _ _ h
          (if-Promise (not (equal section (trim_suffix mark (codes "End")))) _ _ h h))
        h)

module _ (parse_mac : Bytes → Option Bytes) (vlan_number : Bytes → ℕ) where
  load_adapter-Promise :
      (fields : List Bytes) (ifaces : IntelMap)
      → VlansHaveParents ifaces
      → Promise (load_adapter parse_mac vlan_number fields ifaces)
  unfolding load_adapter
  load_adapter-Promise (name ∷ n2 ∷ m ∷ ident ∷ slot ∷ []) ifaces h =
      elim (Option-cases (lookup name ifaces)) [
        | inr (nic, e) ↦ rw (Promise, e) h
        | inl e ↦ elim (Option-cases (parse_mac (insert_colons 0 m))) [
          | inl f ↦ rw (Promise, e, f) h
          | inr (addr, f) ↦
              rw (Promise, e, f)
                (fresh-VlansHaveParents name (adapter name addr) ifaces
                  (λ v. absurd (ground (arith, v))) h)
        ]
      ]
  load_adapter-Promise fields ifaces h = h

  load_setting-Promise :
      (fields : List Bytes) (ifaces : IntelMap)
      → VlansHaveParents ifaces
      → Promise (load_setting parse_mac vlan_number fields ifaces)
  unfolding load_setting
  load_setting-Promise (name ∷ option ∷ arg ∷ arg2 ∷ m ∷ ident ∷ slot ∷ []) ifaces h =
      elim (Option-cases (lookup name ifaces)) [
        | inl e ↦ rw (Promise, e) h
        | inr (nic, e) ↦
            rw (Promise, e)
              (if-Promise (not (equal option (codes "ConnectionName"))) _ _ h (
                if-Promise (equal (trim_space arg) []) _ _ tt
                  (update-VlansHaveParents name (set_friendly arg) ifaces (friendly-Keeps arg) h)))
      ]
  load_setting-Promise fields ifaces h = h

  add_vlan-Promise :
      (parent_name : Bytes) (parent : WinNic) (ifaces : IntelMap) (fields : List Bytes)
      → has_parent parent.mac ifaces ≡ true
      → VlansHaveParents ifaces
      → Promise (add_vlan parse_mac vlan_number parent_name parent ifaces fields)
  unfolding add_vlan
  add_vlan-Promise parent_name parent ifaces [] p h = tt
  add_vlan-Promise parent_name parent ifaces (number ∷ []) p h = tt
  add_vlan-Promise parent_name parent ifaces (number ∷ name ∷ more) p h =
      let win_name = parent_name ++ (codes " - VLAN : " ++ name) in
      elim (Option-cases (lookup win_name ifaces)) [
        | inr (nic, e) ↦ rw (Promise, e) h
        | inl e ↦
            rw (Promise, e)
              (fresh-VlansHaveParents win_name (vlan_child win_name parent.mac (vlan_number number))
                ifaces (λ v. p) h)
      ]

  load_vlan-Promise :
      (fields : List Bytes) (ifaces : IntelMap)
      → VlansHaveParents ifaces
      → Promise (load_vlan parse_mac vlan_number fields ifaces)
  unfolding load_vlan
  load_vlan-Promise [] ifaces h = tt
  load_vlan-Promise (parent_name ∷ fields) ifaces h =
      elim (Option-cases (lookup parent_name ifaces)) [
        | inl e ↦ rw (Promise, e) h
        | inr (parent, e) ↦
            rw (Promise, e)
              (add_vlan-Promise parent_name parent (update parent_name set_children ifaces) fields
                (parent_marked parent_name ifaces e)
                (update-VlansHaveParents parent_name set_children ifaces children-Keeps h))
      ]

  set_option-Promise :
      (name : Bytes) (ifaces : IntelMap) (fields : List Bytes)
      → VlansHaveParents ifaces
      → Promise (set_option parse_mac vlan_number name ifaces fields)
  unfolding set_option
  set_option-Promise name ifaces [] h = tt
  set_option-Promise name ifaces (number ∷ []) h = tt
  set_option-Promise name ifaces (number ∷ option ∷ []) h =
      if-Promise (not (equal option (codes "ConnectionName"))) _ _ h tt
  set_option-Promise name ifaces (number ∷ option ∷ arg ∷ more) h =
      if-Promise (not (equal option (codes "ConnectionName"))) _ _ h (
        if-Promise (equal (trim_space arg) []) _ _ tt
          (update-VlansHaveParents name (set_friendly arg) ifaces (friendly-Keeps arg) h))

  load_vlan_setting-Promise :
      (fields : List Bytes) (ifaces : IntelMap)
      → VlansHaveParents ifaces
      → Promise (load_vlan_setting parse_mac vlan_number fields ifaces)
  unfolding load_vlan_setting
  load_vlan_setting-Promise [] ifaces h = tt
  load_vlan_setting-Promise (parent_name ∷ []) ifaces h = tt
  load_vlan_setting-Promise (parent_name ∷ name ∷ fields) ifaces h =
      elim (Option-cases (lookup name ifaces)) [
        | inl e ↦ rw (Promise, e) h
        | inr (nic, e) ↦ rw (Promise, e) (set_option-Promise name ifaces fields h)
      ]

  load_fields-Promise :
      (section : Bytes) (fields : List Bytes) (ifaces : IntelMap)
      → VlansHaveParents ifaces
      → Promise (load_fields parse_mac vlan_number section fields ifaces)
  unfolding load_fields
  load_fields-Promise section fields ifaces h =
      if-Promise (equal section (codes "Adapters")) _ _ (load_adapter-Promise fields ifaces h) (
        if-Promise (equal section (codes "AdapterSettings")) _ _
          (load_setting-Promise fields ifaces h)
          (if-Promise (equal section (codes "Teams") || equal section (codes "TeamSettings")) _ _ h
            (if-Promise (equal section (codes "Vlans")) _ _ (load_vlan-Promise fields ifaces h) (
              if-Promise (equal section (codes "VlanSettings")) _ _
                (load_vlan_setting-Promise fields ifaces h) h))))

  load_record-Promise :
      (section : Bytes) (r : List Bytes) (ifaces : IntelMap)
      → VlansHaveParents ifaces
      → Promise (load_record parse_mac vlan_number section r ifaces)
  unfolding load_record
  load_record-Promise section [] ifaces h = h
  load_record-Promise section (mark ∷ []) ifaces h = load_mark-Promise section mark ifaces h
  load_record-Promise section (field ∷ field2 ∷ fields) ifaces h =
      load_fields-Promise section (field ∷ field2 ∷ fields) ifaces h

  LoadResult-cases :
      (r : LoadResult)
      → ((section : Bytes) × (ifaces : IntelMap) × (r ≡ going section ifaces))
        ⊎ (((ifaces : IntelMap) × (r ≡ e_load ifaces)) ⊎ (r ≡ panicked))
  LoadResult-cases (going section ifaces) = inl (section, ifaces, refl)
  LoadResult-cases (e_load ifaces) = inr (inl (ifaces, refl))
  LoadResult-cases panicked = inr (inr refl)

  -- Whatever records the reader gives, in whatever section they begin: if every VLAN of the map has
  -- the address of an interface that has VLANs, this holds of the map that `loadIntel` leaves, with
  -- an error or without.
  pub load_intel-Promise :
      (records : List (Option (List Bytes))) (section : Bytes) (ifaces : IntelMap)
      → VlansHaveParents ifaces
      → Promise (load_intel parse_mac vlan_number records section ifaces)
  unfolding load_intel
  load_intel-Promise [] section ifaces h = h
  load_intel-Promise (none ∷ records) section ifaces h = h
  load_intel-Promise (some r ∷ records) section ifaces h =
      let step = load_record-Promise section r ifaces h in
      elim (LoadResult-cases (load_record parse_mac vlan_number section r ifaces)) [
        | inl (section', ifaces', e) ↦
            rw (Promise, e) (load_intel-Promise records section' ifaces' (subst Promise e step))
        | inr (inl (ifaces', e)) ↦ rw (Promise, e) (subst Promise e step)
        | inr (inr e) ↦ rw (Promise, e) tt
      ]
