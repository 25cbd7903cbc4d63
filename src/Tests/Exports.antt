-- ===== src/Tests/Exports.antt =====
-- An export of the network tool.
use gprovision.Intel.{
  IntelMap, adapter, add_vlan, going, insert_colons, load_adapter, load_fields, load_intel,
  load_mark, load_record, load_vlan, lookup, set_children, update, vlan_child,
}
use gprovision.Intel.Loaded.{load_intel-Promise}
use gprovision.Intel.Vlans.{Promise}
use gprovision.Prelude.{
  Bytes, List, Option, [], codes, equal, has_prefix, has_suffix, refl, some, trim_suffix, ℕ, ◌∷◌,
  ◌≡◌,
}

abbrev records : List (Option (List Bytes))
records =
    some (codes "AdaptersStart" ∷ [])
    ∷ some (codes "P" ∷ codes "P" ∷ codes "0026" ∷ codes "VEN" ∷ codes "3:0" ∷ [])
    ∷ some (codes "AdaptersEnd" ∷ [])
    ∷ some (codes "VlansStart" ∷ [])
    ∷ some (codes "P" ∷ codes "88" ∷ codes "V" ∷ [])
    ∷ []

abbrev any_mac : Bytes → Option Bytes
any_mac m = some m

abbrev number_88 : Bytes → ℕ
number_88 s = 88

abbrev child_name : Bytes
child_name = codes "P - VLAN : V"

abbrev two_nics : IntelMap
two_nics =
    (child_name, vlan_child child_name (codes "00:26") 88)
    ∷ (codes "P", set_children (adapter (codes "P") (codes "00:26")))
    ∷ []

two_loaded : load_intel any_mac number_88 records [] [] ≡ going (codes "Vlans") two_nics
unfolding load_intel load_record load_mark load_fields load_adapter load_vlan add_vlan lookup update
    equal has_suffix has_prefix trim_suffix insert_colons
two_loaded = refl

load_intel-Promise_example : Promise (load_intel any_mac number_88 records [] [])
load_intel-Promise_example = load_intel-Promise any_mac number_88 records [] [] tt
