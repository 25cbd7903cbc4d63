-- ===== src/Tests/Interfaces.antt =====
-- MAC addresses and lists of interfaces at concrete inputs.
use gprovision.Nic.{Nic, mac_of, sort_nics, sortable_macs}
use gprovision.Nic.Sorting.{IsMac, macs, sort_nics-macs}
use gprovision.Prelude.{Bytes, List, [], arith, codes, map, refl, ◌∷◌, ◌≡◌}
use mathlib.Core.List.Perm

abbrev mac_a : Bytes
mac_a = 0x00 ∷ 0x0c ∷ 0x29 ∷ 0x01 ∷ 0x02 ∷ 0x10 ∷ []

abbrev mac_b : Bytes
mac_b = 0x00 ∷ 0x0c ∷ 0x29 ∷ 0x01 ∷ 0x02 ∷ 0x11 ∷ []

mac_a-IsMac : IsMac mac_a
mac_a-IsMac = (
  refl,
  (omega arith, (omega arith, (omega arith, (omega arith, (omega arith, (omega arith, tt)))))),
)

mac_b-IsMac : IsMac mac_b
mac_b-IsMac = (
  refl,
  (omega arith, (omega arith, (omega arith, (omega arith, (omega arith, (omega arith, tt)))))),
)

abbrev eth : Bytes → Nic
eth mac = record { device = codes "eth"; mac = mac; irqs = [] }

abbrev nics : List Nic
nics = eth mac_b ∷ eth mac_a ∷ []

abbrev oui : List Bytes
oui = (0x00 ∷ 0x0c ∷ 0x29 ∷ []) ∷ []

-- The identity permutes; it sorts the list given here.
sort_nics-macs_example :
    macs (sort_nics (λ l. l) (eth mac_a ∷ eth mac_b ∷ []))
    ≡ map mac_of (sortable_macs (eth mac_a ∷ eth mac_b ∷ []))
sort_nics-macs_example =
    sort_nics-macs (λ l. l) (eth mac_a ∷ eth mac_b ∷ []) (λ l. Perm.refl l)
      (mac_a-IsMac, (mac_b-IsMac, tt))
