-- ===== src/Intel/Vlans.antt =====
-- Every VLAN that is read has a parent.
use gprovision.Intel.{
  IntelMap, LoadResult, WinNic, e_load, going, lookup, panicked, set_children, set_friendly, update,
}
use gprovision.Prelude.{
  All, Bool, Bool-cases, Bytes, [], ap, arith, equal, equal_refl, false, if◌then◌else◌, inl, inr,
  refl, some, sym, true, ◌&&◌, ◌∙◌, ◌∷◌, ◌≡◌,
}

-- Whether an interface that has VLANs has the address.
unfoldable pub has_parent : Bytes → IntelMap → Bool
has_parent addr [] = false
has_parent addr ((k, nic) ∷ ifaces) =
    let rest = has_parent addr ifaces in
    if nic.has_vlan_children && equal nic.mac addr then true else rest

-- The VLANs of the first map have parents in the second one.
abbrev AllParents : IntelMap → IntelMap → Type 0
AllParents l ifaces = All (λ e. e.1.is_vlan ≡ true → has_parent e.1.mac ifaces ≡ true) l

-- Every VLAN has the address of an interface that has VLANs.
abbrev pub VlansHaveParents : IntelMap → Type 0
VlansHaveParents ifaces = AllParents ifaces ifaces

-- A change that leaves the address and the kind of an interface, and does not take its VLANs away.
pub record Keeps (f : WinNic → WinNic) : Type 0 where
  same_mac : (nic : WinNic) → (f nic).mac ≡ nic.mac
  same_kind : (nic : WinNic) → (f nic).is_vlan ≡ nic.is_vlan
  children : (nic : WinNic) → nic.has_vlan_children ≡ true → (f nic).has_vlan_children ≡ true

has_parent-update :
    (name : Bytes) (f : WinNic → WinNic) (addr : Bytes) (ifaces : IntelMap)
    → Keeps f
    → has_parent addr ifaces ≡ true
    → has_parent addr (update name f ifaces) ≡ true
unfolding has_parent update
has_parent-update name f addr [] k h = h
has_parent-update name f addr ((n, nic) ∷ ifaces) k h = ground (
  arith,
  k.same_mac nic,
  k.children nic,
  ap (λ m. equal m addr) (k.same_mac nic),
  has_parent-update name f addr ifaces k,
)

mono :
    (l ifaces more : IntelMap)
    → ((addr : Bytes) → has_parent addr ifaces ≡ true → has_parent addr more ≡ true)
    → AllParents l ifaces
    → AllParents l more
mono [] ifaces more h a = tt
mono (e ∷ l) ifaces more h (a, as') = ((λ v. h e.1.mac (a v)), mono l ifaces more h as')

update-AllParents :
    (name : Bytes) (f : WinNic → WinNic) (l ifaces : IntelMap)
    → Keeps f
    → AllParents l ifaces
    → AllParents (update name f l) ifaces
unfolding update
update-AllParents name f [] ifaces k a = tt
update-AllParents name f ((n, nic) ∷ l) ifaces k (a, as') = elim (Bool-cases (equal n name)) [
  | inl e ↦
      rw e
        ((λ v. ap (λ m. has_parent m ifaces) (k.same_mac nic) ∙ a (sym (k.same_kind nic) ∙ v)), as')
  | inr e ↦ rw e (a, update-AllParents name f l ifaces k as')
]

pub update-VlansHaveParents :
    (name : Bytes) (f : WinNic → WinNic) (ifaces : IntelMap)
    → Keeps f
    → VlansHaveParents ifaces
    → VlansHaveParents (update name f ifaces)
update-VlansHaveParents name f ifaces k h =
    mono (update name f ifaces) ifaces (update name f ifaces)
      (λ addr p. has_parent-update name f addr ifaces k p)
      (update-AllParents name f ifaces ifaces k h)

pub friendly-Keeps : (name : Bytes) → Keeps (set_friendly name)
friendly-Keeps name = record {
  same_mac = λ nic. refl;
  same_kind = λ nic. refl;
  children = λ nic h. h;
}

pub children-Keeps : Keeps set_children
children-Keeps = record {
  same_mac = λ nic. refl;
  same_kind = λ nic. refl;
  children = λ nic h. refl;
}

pub parent_marked :
    (name : Bytes) (ifaces : IntelMap) {parent : WinNic}
    → lookup name ifaces ≡ some parent
    → has_parent parent.mac (update name set_children ifaces) ≡ true
unfolding lookup update has_parent
parent_marked name [] e = absurd (ground (arith, e))
parent_marked name ((k, nic) ∷ ifaces) {parent} e = elim (Bool-cases (equal k name)) [
  | inl t ↦
      let same : nic ≡ parent = ground (arith, e, t) in
      rw t (rw same (ground (arith, equal_refl parent.mac)))
  | inr f ↦
      let later = parent_marked name ifaces {parent = parent} (ground (arith, e, f)) in
      rw f (ground (arith, later))
]

pub fresh-VlansHaveParents :
    (name : Bytes) (nic : WinNic) (ifaces : IntelMap)
    → (nic.is_vlan ≡ true → has_parent nic.mac ifaces ≡ true)
    → VlansHaveParents ifaces
    → VlansHaveParents ((name, nic) ∷ ifaces)
unfolding has_parent
fresh-VlansHaveParents name nic ifaces own h = (
  (λ v. ground (arith, own v)),
  mono ifaces ifaces ((name, nic) ∷ ifaces) (λ addr p. ground (arith, p)) h,
)

-- What a result promises of the map.
abbrev pub Promise : LoadResult → Type 0
Promise (going section ifaces) = VlansHaveParents ifaces
Promise (e_load ifaces) = VlansHaveParents ifaces
Promise panicked = Unit
