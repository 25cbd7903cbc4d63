-- ===== src/Intel.antt =====
-- pkg/netexport/importIntel.go: the interfaces and VLANs in the export of Intel's network tool.
pub mod Vlans
pub mod Loaded
use gprovision.Prelude.{
  Bool, Bytes, List, Option, [], codes, equal, false, has_suffix, if◌then◌else◌, none, not, some,
  trim_space, trim_suffix, true, ℕ, ◌%◌, ◌&&◌, ◌++◌, ◌+◌, ◌==◌, ◌||◌, ◌∷◌,
}

-- `WinNic`, as far as it is read here.
pub record WinNic : Type 0 where
  pub win_name : Bytes
  pub mac : Bytes
  pub friendly_name : Bytes
  pub has_vlan_children : Bool
  pub is_vlan : Bool
  pub vlan : ℕ

-- `IntelMap`: a map from names to pointers.
abbrev pub IntelMap : Type 0
IntelMap = List (Bytes × WinNic)

unfoldable pub lookup : Bytes → IntelMap → Option WinNic
lookup name [] = none
lookup name ((k, nic) ∷ ifaces) =
    let rest = lookup name ifaces in if equal k name then some nic else rest

-- A change of what the pointer of a name points to.
unfoldable pub update : Bytes → (WinNic → WinNic) → IntelMap → IntelMap
update name f [] = []
update name f ((k, nic) ∷ ifaces) =
    let rest = update name f ifaces in if equal k name then (k, f nic) ∷ ifaces else (k, nic) ∷ rest

-- `convertMac` before `net.ParseMAC`: colons between the pairs of digits.
unfoldable pub insert_colons : ℕ → Bytes → Bytes
insert_colons idx [] = []
insert_colons idx (c ∷ m) =
    let rest = insert_colons (idx + 1) m in
    if not (idx == 0) && idx % 2 == 0 then b':' ∷ c ∷ rest else c ∷ rest

-- The state of `loadIntel` behind a record, an error, or a panic: an empty name, or a field that is
-- not there.
pub data LoadResult : Type 0 where
  going : Bytes → IntelMap → LoadResult
  e_load : IntelMap → LoadResult
  panicked : LoadResult

-- A record of one field: the start or end of a section.
unfoldable pub load_mark : Bytes → Bytes → IntelMap → LoadResult
load_mark section mark ifaces =
    if has_suffix mark (codes "Start")
    then if not (equal section [])
      then e_load ifaces
      else going (trim_suffix mark (codes "Start")) ifaces
    else if has_suffix mark (codes "End")
    then if equal section []
      then e_load ifaces
      else if not (equal section (trim_suffix mark (codes "End")))
      then e_load ifaces
      else going [] ifaces
    else e_load ifaces

abbrev pub set_friendly : Bytes → WinNic → WinNic
set_friendly name nic = record nic { friendly_name = name }

abbrev pub set_children : WinNic → WinNic
set_children nic = record nic { has_vlan_children = true }

abbrev pub adapter : Bytes → Bytes → WinNic
adapter win_name addr = record {
  win_name = win_name;
  mac = addr;
  friendly_name = [];
  has_vlan_children = false;
  is_vlan = false;
  vlan = 0;
}

abbrev pub vlan_child : Bytes → Bytes → ℕ → WinNic
vlan_child win_name addr vlan = record {
  win_name = win_name;
  mac = addr;
  friendly_name = [];
  has_vlan_children = false;
  is_vlan = true;
  vlan = vlan;
}

-- `net.ParseMAC`, and the value that `strconv.ParseUint` returns, with an error or without.
module _ (parse_mac : Bytes → Option Bytes) (vlan_number : Bytes → ℕ) where
  -- A line of the section Adapters.
  unfoldable pub load_adapter : List Bytes → IntelMap → LoadResult
  load_adapter (name ∷ n2 ∷ m ∷ ident ∷ slot ∷ []) ifaces = elim (lookup name ifaces) [
    | some nic ↦ e_load ifaces
    | none ↦ elim (parse_mac (insert_colons 0 m)) [
      | none ↦ going (codes "Adapters") ifaces
      | some addr ↦ going (codes "Adapters") ((name, adapter name addr) ∷ ifaces)
    ]
  ]
  load_adapter fields ifaces = e_load ifaces

  -- A line of the section AdapterSettings.
  unfoldable pub load_setting : List Bytes → IntelMap → LoadResult
  load_setting (name ∷ option ∷ arg ∷ arg2 ∷ m ∷ ident ∷ slot ∷ []) ifaces =
      elim (lookup name ifaces) [
        | none ↦ e_load ifaces
        | some nic ↦
            if not (equal option (codes "ConnectionName"))
            then going (codes "AdapterSettings") ifaces
            else if equal (trim_space arg) []
            then panicked
            else going (codes "AdapterSettings") (update name (set_friendly arg) ifaces)
      ]
  load_setting fields ifaces = e_load ifaces

  abbrev pub vlan_name : Bytes → Bytes → Bytes
  vlan_name parent_name name = parent_name ++ (codes " - VLAN : " ++ name)

  -- The rest of a line of the section Vlans, with the parent and what the map is by then.
  unfoldable pub add_vlan : Bytes → WinNic → IntelMap → List Bytes → LoadResult
  add_vlan parent_name parent ifaces [] = panicked
  add_vlan parent_name parent ifaces (number ∷ []) = panicked
  add_vlan parent_name parent ifaces (number ∷ name ∷ more) =
      let win_name = vlan_name parent_name name in
      elim (lookup win_name ifaces) [
        | some nic ↦ e_load ifaces
        | none ↦
            going (codes "Vlans")
              ((win_name, vlan_child win_name parent.mac (vlan_number number)) ∷ ifaces)
      ]

  -- A line of the section Vlans.
  unfoldable pub load_vlan : List Bytes → IntelMap → LoadResult
  load_vlan [] ifaces = panicked
  load_vlan (parent_name ∷ fields) ifaces = elim (lookup parent_name ifaces) [
    | none ↦ e_load ifaces
    | some parent ↦ add_vlan parent_name parent (update parent_name set_children ifaces) fields
  ]

  -- The options of a line of the section VlanSettings.
  unfoldable pub set_option : Bytes → IntelMap → List Bytes → LoadResult
  set_option name ifaces (number ∷ option ∷ arg ∷ more) =
      if not (equal option (codes "ConnectionName"))
      then going (codes "VlanSettings") ifaces
      else if equal (trim_space arg) []
      then panicked
      else going (codes "VlanSettings") (update name (set_friendly arg) ifaces)
  set_option name ifaces (number ∷ option ∷ []) =
      if not (equal option (codes "ConnectionName"))
      then going (codes "VlanSettings") ifaces
      else panicked
  set_option name ifaces (number ∷ []) = panicked
  set_option name ifaces [] = panicked

  -- A line of the section VlanSettings.
  unfoldable pub load_vlan_setting : List Bytes → IntelMap → LoadResult
  load_vlan_setting [] ifaces = panicked
  load_vlan_setting (parent_name ∷ []) ifaces = panicked
  load_vlan_setting (parent_name ∷ name ∷ fields) ifaces = elim (lookup name ifaces) [
    | none ↦ e_load ifaces
    | some nic ↦ set_option name ifaces fields
  ]

  -- A record of several fields.
  unfoldable pub load_fields : Bytes → List Bytes → IntelMap → LoadResult
  load_fields section fields ifaces =
      if equal section (codes "Adapters")
      then load_adapter fields ifaces
      else if equal section (codes "AdapterSettings")
      then load_setting fields ifaces
      else if equal section (codes "Teams") || equal section (codes "TeamSettings")
      then going section ifaces
      else if equal section (codes "Vlans")
      then load_vlan fields ifaces
      else if equal section (codes "VlanSettings")
      then load_vlan_setting fields ifaces
      else e_load ifaces

  unfoldable pub load_record : Bytes → List Bytes → IntelMap → LoadResult
  load_record section [] ifaces = going section ifaces
  load_record section (mark ∷ []) ifaces = load_mark section mark ifaces
  load_record section (field ∷ field2 ∷ fields) ifaces =
      load_fields section (field ∷ field2 ∷ fields) ifaces

  -- `loadIntel`, from the records that the reader of the CSV file gives; `none` is an error there.
  unfoldable pub load_intel : List (Option (List Bytes)) → Bytes → IntelMap → LoadResult
  load_intel [] section ifaces = going section ifaces
  load_intel (none ∷ records) section ifaces = e_load ifaces
  load_intel (some r ∷ records) section ifaces = elim (load_record section r ifaces) [
    | going section' ifaces' ↦ load_intel records section' ifaces'
    | e_load ifaces' ↦ e_load ifaces'
    | panicked ↦ panicked
  ]
