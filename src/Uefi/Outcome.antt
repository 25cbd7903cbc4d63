-- ===== src/Uefi/Outcome.antt =====
-- What a Go function with an error returns: a value, an error, or a panic of an index out of range.
use gprovision.Prelude.{
  Bytes, [], arith, drop, get_elem?, if◌then◌else◌, inl, inr, length, ltb, none, refl, some, suc,
  take, zero, ℕ, ◌*◌, ◌+◌, ◌<◌, ◌||◌, ◌∷◌, ◌≡◌, ◌≤◌, ◌⊎◌,
}

pub data Outcome {ℓ} (A : Type ℓ) : Type ℓ where
  parsed : A → Outcome A
  e_parse : Outcome A
  panicked : Outcome A

infixl 5 ◌>>=◌
abbrev pub ◌>>=◌ {ℓ κ} : {A : Type ℓ} {B : Type κ} → Outcome A → (A → Outcome B) → Outcome B
parsed a >>= f = f a
e_parse >>= f = e_parse
panicked >>= f = panicked

-- `b[i]`
unfoldable pub at : Bytes → ℕ → Outcome ℕ
at b i = elim (get_elem? b i) [ none ↦ panicked | some x ↦ parsed x ]

-- `b[lo:hi]`
unfoldable pub slice : Bytes → ℕ → ℕ → Outcome Bytes
slice b lo hi = if ltb hi lo || ltb (length b) hi then panicked else parsed (drop lo (take hi b))

-- `binary.LittleEndian`
unfoldable pub le_value : Bytes → ℕ
le_value [] = 0
le_value (b ∷ bs) = b + 256 * le_value bs

pub slice_in_range :
    (b : Bytes) (lo hi : ℕ) → lo ≤ hi → hi ≤ length b → slice b lo hi ≡ parsed (drop lo (take hi b))
unfolding slice
slice_in_range b lo hi h k = ground arith

pub at_in_range : (b : Bytes) (i : ℕ) → i < length b → (x : ℕ) × (at b i ≡ parsed x)
unfolding at
at_in_range [] i h = absurd (omega (arith, h))
at_in_range (x ∷ b) zero h = (x, refl)
at_in_range (x ∷ b) (suc i) h = at_in_range b i (omega (arith, h))

pub Outcome-cases {ℓ} :
    {A : Type ℓ} (o : Outcome A) → ((a : A) × (o ≡ parsed a)) ⊎ ((o ≡ e_parse) ⊎ (o ≡ panicked))
Outcome-cases (parsed a) = inl (a, refl)
Outcome-cases e_parse = inr (inl refl)
Outcome-cases panicked = inr (inr refl)
