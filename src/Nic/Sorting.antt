-- ===== src/Nic/Sorting.antt =====
-- The interfaces in the order of their addresses.
use mathlib.Core.Bool.{Bool-set}
use mathlib.Core.List.{Mem, Perm, mem-cons, not-mem-nil}
use mathlib.Core.Path.{ap₂}
use gprovision.Nic.{Nic, collect, find_nic, mac_of, sort_nics, sortable_macs}
use gprovision.Nic.Macs.{mac_of-umac_of}
use gprovision.Prelude.{
  All, Bool, Bytes, IsByte, List, Option-cases, [], arith, equal, equal_iff, equal_refl, false, inl,
  inr, length, map, none, refl, some, true, ℕ, ◌||◌, ◌∷◌, ◌≡◌,
}
use mathlib.Core.List.Perm
use mathlib.Core.Logic.Or

-- The addresses of interfaces.
unfoldable pub macs : List Nic → List Bytes
macs [] = []
macs (n ∷ nl) = n.mac ∷ macs nl

abbrev pub IsMac : Bytes → Type 0
IsMac a = (length a ≡ 6) × All IsByte a

-- Whether an interface has the address.
unfoldable has_mac : Bytes → List Nic → Bool
has_mac a nl = elim (find_nic a nl) [ none ↦ false | some n ↦ true ]

find_nic-mac : (a : Bytes) (nl : List Nic) {n : Nic} → find_nic a nl ≡ some n → n.mac ≡ a
unfolding find_nic
find_nic-mac a [] e = ground arith
find_nic-mac a (k ∷ nl) {n} e = ground (arith, find_nic-mac a nl {n = n}, equal_iff k.mac a)

has_mac-cons :
    (a : Bytes) (n : Nic) (nl : List Nic) → has_mac a (n ∷ nl) ≡ equal n.mac a || has_mac a nl
unfolding has_mac find_nic
has_mac-cons a n nl = ground arith

macs-collect :
    (nl : List Nic) (ms : List ℕ)
    → All (λ m. has_mac (mac_of m) nl ≡ true) ms
    → macs (collect nl ms) ≡ map mac_of ms
unfolding macs collect has_mac
macs-collect nl [] h = refl
macs-collect nl (m ∷ ms) (h, hs) = elim (Option-cases (find_nic (mac_of m) nl)) [
  | inl absent ↦ ground (arith, h, absent)
  | inr (n, found) ↦
      rw (macs, collect, found)
        (ap₂ (λ x xs. x ∷ xs) (find_nic-mac (mac_of m) nl found) (macs-collect nl ms hs))
]

has_mac-umac_of :
    (nl : List Nic) (m : ℕ)
    → All (λ n. IsMac n.mac) nl
    → Mem m (sortable_macs nl)
    → has_mac (mac_of m) nl ≡ true
unfolding sortable_macs
has_mac-umac_of [] m h i = absurd (not-mem-nil i)
has_mac-umac_of (n ∷ nl) m (hn, hs) i =
    Or.elim (Bool-set _ _) (mem-cons.0 i)
      (λ e.
        rw (has_mac-cons (mac_of m) n nl, e, mac_of-umac_of n.mac hn.0 hn.1, equal_refl n.mac) refl)
      (λ later. rw (has_mac-cons (mac_of m) n nl, has_mac-umac_of nl m hs later) (ground arith))

All-of_mem {ℓ} : {P : ℕ → Type ℓ} (l : List ℕ) → ((x : ℕ) → Mem x l → P x) → All P l
All-of_mem [] h = tt
All-of_mem (x ∷ l) h =
    (h x (mem-cons.1 (Or.inl refl)), All-of_mem l (λ y i. h y (mem-cons.1 (Or.inr i))))

-- `NicList.Sort`, for interfaces with addresses of six bytes and a sort that permutes its list: the
-- addresses of the result are the sorted numbers, read back, so there are as many interfaces as
-- before and none is without its address.
pub sort_nics-macs :
    (sort : List ℕ → List ℕ) (nl : List Nic)
    → ((l : List ℕ) → Perm (sort l) l)
    → All (λ n. IsMac n.mac) nl
    → macs (sort_nics sort nl) ≡ map mac_of (sort (sortable_macs nl))
unfolding sort_nics
sort_nics-macs sort nl permutes h = macs-collect nl (sort (sortable_macs nl)) (
    All-of_mem (sort (sortable_macs nl))
      (λ m i. has_mac-umac_of nl m h ((Perm.mem_iff (permutes (sortable_macs nl))).0 i)))
