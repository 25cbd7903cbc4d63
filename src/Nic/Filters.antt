-- ===== src/Nic/Filters.antt =====
-- What the filters keep.
use gprovision.Nic.{
  FilterFn, Nic, allowed_prefix, filter_from, filter_macs, filter_nics, not_filter,
}
use gprovision.Prelude.{
  All, Bool, Bool-cases, Bytes, List, [], arith, equal, false, has_prefix, if◌then◌else◌, inl, inr,
  length, refl, some, take, ℕ, ◌+◌, ◌==◌, ◌||◌, ◌∷◌, ◌≡◌, ◌≤◌,
}

-- Lists that are parts of a third one, which keeps their orders.
pub data IsSplit : List Nic → List Nic → List Nic → Type 0 where
  done : IsSplit [] [] []
  left : {n : Nic} {xs ys zs : List Nic} → IsSplit xs ys zs → IsSplit (n ∷ xs) ys (n ∷ zs)
  right : {n : Nic} {xs ys zs : List Nic} → IsSplit xs ys zs → IsSplit xs (n ∷ ys) (n ∷ zs)

filter_from-IsSplit :
    (fn : FilterFn) (i : ℕ) (nl : List Nic)
    → IsSplit (filter_from i fn nl) (filter_from i (not_filter fn) nl) nl
unfolding filter_from not_filter
filter_from-IsSplit fn i [] = done
filter_from-IsSplit fn i (n ∷ nl) = elim (Bool-cases (fn i n)) [
  | inl t ↦ rw t (left (filter_from-IsSplit fn (i + 1) nl))
  | inr f ↦ rw f (right (filter_from-IsSplit fn (i + 1) nl))
]

-- `Filter` with a filter and with its `NotFilter` split the list: each interface is in exactly one
-- of the results, in its order.
pub filter_nics-IsSplit :
    (fn : FilterFn) (nl : List Nic)
    → IsSplit (filter_nics fn nl) (filter_nics (not_filter fn) nl) nl
unfolding filter_nics
filter_nics-IsSplit fn nl = filter_from-IsSplit fn 0 nl

-- The address starts with one of the prefixes.
unfoldable pub starts_with : Bytes → List Bytes → Bool
starts_with mac [] = false
starts_with mac (pfx ∷ rest) = has_prefix mac pfx || starts_with mac rest

take-has_prefix : (s p : Bytes) → length p ≤ length s → equal p (take (length p) s) ≡ has_prefix s p
unfolding has_prefix equal
take-has_prefix s [] h = refl
take-has_prefix [] (b ∷ p) h = absurd (omega (arith, h))
take-has_prefix (c ∷ s) (b ∷ p) h = ground (arith, take-has_prefix s p (omega (arith, h)))

allowed_prefix_lem :
    (mac : Bytes) (allowed : List Bytes)
    → All (λ pfx. length pfx ≤ length mac) allowed
    → allowed_prefix mac allowed ≡ some (starts_with mac allowed)
unfolding allowed_prefix starts_with
allowed_prefix_lem mac [] h = refl
allowed_prefix_lem mac (pfx ∷ rest) (h, hs) =
    ground (arith, take-has_prefix mac pfx h, allowed_prefix_lem mac rest hs)

-- The interfaces that a list of prefixes allows: all of them if it is empty.
unfoldable pub allowed_nics : List Bytes → List Nic → List Nic
allowed_nics allowed [] = []
allowed_nics allowed (n ∷ nl) =
    let rest = allowed_nics allowed nl in
    if length allowed == 0 || starts_with n.mac allowed then n ∷ rest else rest

-- `FilterMACs` does not panic if no address is shorter than a prefix, and then keeps exactly the
-- interfaces whose address starts with one of the prefixes, or all if there are none.
filter_macs_lem :
    (allowed : List Bytes) (nl : List Nic)
    → All (λ n. All (λ pfx. length pfx ≤ length n.mac) allowed) nl
    → filter_macs allowed nl ≡ some (allowed_nics allowed nl)
unfolding filter_macs allowed_nics
filter_macs_lem allowed [] h = refl
filter_macs_lem allowed (n ∷ nl) (h, hs) =
    ground (arith, allowed_prefix_lem n.mac allowed h, filter_macs_lem allowed nl hs)
