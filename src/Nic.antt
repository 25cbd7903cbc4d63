-- ===== src/Nic.antt =====
-- pkg/hw/nic/sort_mac.go: interfaces filtered and sorted by their MAC addresses.
pub mod Macs
pub mod Order
pub mod Filters
pub mod Sequence
pub mod Sorting
pub mod Rss
pub mod Xps
use gprovision.Prelude.{
  Bool, Bytes, List, Option, [], drop, equal, false, if◌then◌else◌, length, ltb, none, not,
  replicate, some, suc, take, true, zero, ℕ, ◌%◌, ◌*◌, ◌++◌, ◌+◌, ◌-◌, ◌/◌, ◌==◌, ◌∷◌,
}

pub record Nic : Type 0 where
  pub device : Bytes
  pub mac : Bytes
  pub irqs : List ℕ

-- `AllowedPrefix`: `n.mac[:len(pfx)]` panics, which is `none`, if the address is shorter. The
-- capacity of an address is its length.
unfoldable pub allowed_prefix : Bytes → List Bytes → Option Bool
allowed_prefix mac [] = some false
allowed_prefix mac (pfx ∷ rest) =
    let later = allowed_prefix mac rest in
    if ltb (length mac) (length pfx)
    then none
    else if equal pfx (take (length pfx) mac)
    then some true
    else later

-- `FilterMACs`
unfoldable pub filter_macs : List Bytes → List Nic → Option (List Nic)
filter_macs allowed [] = some []
filter_macs allowed (n ∷ nl) =
    let kept = filter_macs allowed nl in
    let is_allowed = if length allowed == 0 then some true else allowed_prefix n.mac allowed in
    elim is_allowed [
      | none ↦ none
      | some false ↦ kept
      | some true ↦ elim kept [ none ↦ none | some ns ↦ some (n ∷ ns) ]
    ]

abbrev pub FilterFn : Type 0
FilterFn = ℕ → Nic → Bool

-- The loop of `Filter` at index `i`.
unfoldable pub filter_from : ℕ → FilterFn → List Nic → List Nic
filter_from i fn [] = []
filter_from i fn (n ∷ nl) =
    let rest = filter_from (i + 1) fn nl in if fn i n then n ∷ rest else rest

unfoldable pub filter_nics : FilterFn → List Nic → List Nic
filter_nics fn nl = filter_from 0 fn nl

unfoldable pub listed : ℕ → List ℕ → Bool
listed idx [] = false
listed idx (i ∷ is) = let rest = listed idx is in if idx == i then true else rest

-- `IndexFilter`
unfoldable pub index_filter : List ℕ → FilterFn
index_filter indexes idx n = listed idx indexes

-- `NotFilter`
unfoldable pub not_filter : FilterFn → FilterFn
not_filter fn idx n = not (fn idx n)

-- `binary.BigEndian.Uint64`, and `PutUint64` into `n` bytes.
unfoldable pub be_value : ℕ → Bytes → ℕ
be_value acc [] = acc
be_value acc (b ∷ bs) = be_value (acc * 256 + b) bs

unfoldable pub be_bytes : ℕ → ℕ → Bytes
be_bytes zero m = []
be_bytes (suc n) m = be_bytes n (m / 256) ++ m % 256 ∷ []

-- One element of `SortableMacs`: the address stands behind two zero bytes.
unfoldable pub umac_of : Bytes → ℕ
umac_of a = be_value 0 (0 ∷ 0 ∷ (take 6 a ++ replicate (6 - length a) 0))

-- `umac.Mac`
unfoldable pub mac_of : ℕ → Bytes
mac_of m = drop 2 (be_bytes 8 m)

-- The inner loop of `NicList.Sort`: the first interface with the address.
unfoldable pub find_nic : Bytes → List Nic → Option Nic
find_nic a [] = none
find_nic a (n ∷ nl) = let rest = find_nic a nl in if equal n.mac a then some n else rest

unfoldable pub collect : List Nic → List ℕ → List Nic
collect nl [] = []
collect nl (m ∷ ms) =
    let rest = collect nl ms in elim (find_nic (mac_of m) nl) [ none ↦ rest | some n ↦ n ∷ rest ]

-- `SortableMacs` of the interfaces' addresses.
unfoldable pub sortable_macs : List Nic → List ℕ
sortable_macs [] = []
sortable_macs (n ∷ nl) = umac_of n.mac ∷ sortable_macs nl

-- `NicList.Sort`; `sort` is `sort.Sort` on the list of numbers.
unfoldable pub sort_nics : (List ℕ → List ℕ) → List Nic → List Nic
sort_nics sort nl = collect nl (sort (sortable_macs nl))

-- `Sequential`, on uint64 numbers.
unfoldable pub sequential : List ℕ → Bool
sequential [] = true
sequential (x ∷ []) = true
sequential (x ∷ y ∷ ms) =
    let rest = sequential (y ∷ ms) in
    if not ((x + 1) % 18446744073709551616 == y) then false else rest
