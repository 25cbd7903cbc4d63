-- ===== src/Cfa/Buttons/Laws.antt =====
-- Key masks translate to one event for each pressed key; legends are told apart on the wire.
use gprovision.Cfa.Buttons.{KeyMask, KeyXlate, Legend, keymask_to_activity, legend_bytes, values}
use gprovision.Prelude.{
  Bool-cases, List, [], arith, bit_and, inl, inr, ℕ, ◌==◌, ◌↔◌, ◌∷◌, ◌≡◌, ◌≢◌, ◌⊎◌,
}

-- `m` reports the key of entry `e`.
abbrev pub Pressed : KeyMask → KeyXlate → Type 0
Pressed m e = bit_and e.m m ≢ 0

-- An event is produced exactly when some entry of the table with that event has its key in the mask.
pub data Reports (m : KeyMask) (k : ℕ) : List KeyXlate → Type 0 where
  here : {e : KeyXlate} {es : List KeyXlate} → Pressed m e → e.a ≡ k → Reports m k (e ∷ es)
  there : {e : KeyXlate} {es : List KeyXlate} → Reports m k es → Reports m k (e ∷ es)

pub data Elem (k : ℕ) : List ℕ → Type 0 where
  first : {x : ℕ} {xs : List ℕ} → x ≡ k → Elem k (x ∷ xs)
  later : {x : ℕ} {xs : List ℕ} → Elem k xs → Elem k (x ∷ xs)

Elem-cons : (k x : ℕ) (xs : List ℕ) → Elem k (x ∷ xs) → (x ≡ k) ⊎ Elem k xs
Elem-cons k x xs (first e) = inl e
Elem-cons k x xs (later t) = inr t

pub Reports-of_Elem :
    (table : List KeyXlate) (m : KeyMask) (k : ℕ)
    → Elem k (keymask_to_activity table m)
    → Reports m k table
unfolding keymask_to_activity
Reports-of_Elem [] m k t = elim t [ ]
Reports-of_Elem (e ∷ es) m k t = elim (Bool-cases (bit_and e.m m == 0)) [
  | inl z ↦ there (Reports-of_Elem es m k (rw z at t))
  | inr p ↦ elim (Elem-cons k e.a _ (rw p at t)) [
    | inl h ↦ here (ground arith) h
    | inr r ↦ there (Reports-of_Elem es m k r)
  ]
]

pub Elem-of_Reports :
    (m : KeyMask) (k : ℕ) {table : List KeyXlate}
    → Reports m k table
    → Elem k (keymask_to_activity table m)
unfolding keymask_to_activity
Elem-of_Reports m k (here {e} p h) = elim (Bool-cases (bit_and e.m m == 0)) [
  | inl z ↦ absurd (p (ground arith))
  | inr q ↦ rw q (first h)
]
Elem-of_Reports m k (there {e} r) = elim (Bool-cases (bit_and e.m m == 0)) [
  | inl z ↦ rw z (Elem-of_Reports m k r)
  | inr p ↦ rw p (later (Elem-of_Reports m k r))
]

-- The events of a poll are exactly the release events of the table whose key is in the mask.
keymask_to_activity_iff :
    (table : List KeyXlate) (m : KeyMask) (k : ℕ)
    → Elem k (keymask_to_activity table m) ↔ Reports m k table
keymask_to_activity_iff table m k = (Reports-of_Elem table m k, Elem-of_Reports m k)

-- Different legends are sent as different bytes.
pub legend_bytes-injective :
    (a b : Legend) → legend_bytes (values a) ≡ legend_bytes (values b) → a ≡ b
unfolding legend_bytes values
legend_bytes-injective a b h = ground arith
