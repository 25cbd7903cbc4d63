-- ===== src/Prelude/Lists.antt =====
-- Lists measured and indexed by native numbers, under the library's names.
use Prim.Native.Nat.{ℕ, zero, suc, ◌+◌, ◌-◌, ◌≤◌, min}
use mathlib.Core.Path.{◌≡◌, refl, sym, ap, ◌∙◌}
use mathlib.Core.List.{List, [], ◌∷◌, ◌++◌}
use mathlib.Core.Option.{Option, none, some}
use native.Mathlib.Omega.{arith}

module _ {ℓ} {A : Type ℓ} where
  abbrev pub length : List A → ℕ
  length [] = 0
  length (x ∷ xs) = suc (length xs)

  abbrev pub get_elem? : List A → ℕ → Option A
  get_elem? [] i = none
  get_elem? (x ∷ xs) zero = some x
  get_elem? (x ∷ xs) (suc i) = get_elem? xs i

  abbrev pub take : ℕ → List A → List A
  take zero xs = []
  take (suc n) [] = []
  take (suc n) (x ∷ xs) = x ∷ take n xs

  abbrev pub drop : ℕ → List A → List A
  drop zero xs = xs
  drop (suc n) [] = []
  drop (suc n) (x ∷ xs) = drop n xs

  abbrev pub replicate : ℕ → A → List A
  replicate zero a = []
  replicate (suc n) a = a ∷ replicate n a

module _ {ℓ} {A : Type ℓ} where
  pub length-append : (xs ys : List A) → length (xs ++ ys) ≡ length xs + length ys
  length-append [] ys = omega arith
  length-append (x ∷ xs) ys = omega (arith, length-append xs ys)

  pub take-append-drop : (n : ℕ) (xs : List A) → take n xs ++ drop n xs ≡ xs
  take-append-drop zero xs = refl
  take-append-drop (suc n) [] = refl
  take-append-drop (suc n) (x ∷ xs) = ap (◌∷◌ x) (take-append-drop n xs)

  pub length-take : (n : ℕ) (xs : List A) → length (take n xs) ≡ min n (length xs)
  length-take zero xs = omega arith
  length-take (suc n) [] = omega arith
  length-take (suc n) (x ∷ xs) = omega (arith, length-take n xs)

  pub length-drop : (n : ℕ) (xs : List A) → length (drop n xs) ≡ length xs - n
  length-drop zero xs = omega arith
  length-drop (suc n) [] = omega arith
  length-drop (suc n) (x ∷ xs) = omega (arith, length-drop n xs)

  pub length-replicate : (n : ℕ) (a : A) → length (replicate n a) ≡ n
  length-replicate zero a = refl
  length-replicate (suc n) a = ap suc (length-replicate n a)

  -- The cut of `xs ++ ys` at the length of `xs`.
  pub take-append : (xs ys : List A) → take (length xs) (xs ++ ys) ≡ xs
  take-append [] ys = refl
  take-append (x ∷ xs) ys = ap (◌∷◌ x) (take-append xs ys)

  pub drop-append : (xs ys : List A) → drop (length xs) (xs ++ ys) ≡ ys
  drop-append [] ys = refl
  drop-append (x ∷ xs) ys = drop-append xs ys

  pub take-eq_of_length : (n : ℕ) (xs : List A) → length xs ≤ n → take n xs ≡ xs
  take-eq_of_length zero [] h = refl
  take-eq_of_length zero (x ∷ xs) h = absurd (omega arith)
  take-eq_of_length (suc n) [] h = refl
  take-eq_of_length (suc n) (x ∷ xs) h = ap (◌∷◌ x) (take-eq_of_length n xs (omega arith))

module _ {ℓ κ} {A : Type ℓ} (P : A → Type κ) where
  abbrev pub All : List A → Type κ
  All [] = Unit
  All (x ∷ xs) = P x × All xs

module _ {ℓ κ} {A : Type ℓ} (P : A → Type κ) where
  pub All-append : (xs ys : List A) → All P xs → All P ys → All P (xs ++ ys)
  All-append [] ys hx hy = hy
  All-append (x ∷ xs) ys hx hy = (hx.0, All-append xs ys hx.1 hy)

  pub All-take : (n : ℕ) (xs : List A) → All P xs → All P (take n xs)
  All-take zero xs h = tt
  All-take (suc n) [] h = tt
  All-take (suc n) (x ∷ xs) h = (h.0, All-take n xs h.1)

  pub All-drop : (n : ℕ) (xs : List A) → All P xs → All P (drop n xs)
  All-drop zero xs h = h
  All-drop (suc n) [] h = tt
  All-drop (suc n) (x ∷ xs) h = All-drop n xs h.1

  pub All-replicate : (n : ℕ) (a : A) → P a → All P (replicate n a)
  All-replicate zero a h = tt
  All-replicate (suc n) a h = (h, All-replicate n a h)

min-suc : (a b : ℕ) → min (suc a) (suc b) ≡ suc (min a b)
min-suc a b = omega arith

min_zero : (b : ℕ) → min 0 b ≡ 0
min_zero b = omega arith

min_by_zero : (a : ℕ) → min a 0 ≡ 0
min_by_zero a = omega arith

-- Cuts at a place that is reached in two steps.
suc_add : (i k : ℕ) → suc i + k ≡ suc (i + k)
suc_add i k = omega arith

module _ {ℓ} {A : Type ℓ} where
  drop_nil : (k : ℕ) → ◌≡◌ {A = List A} (drop k []) []
  drop_nil zero = refl
  drop_nil (suc k) = refl

  pub drop_add : (i k : ℕ) (b : List A) → drop (i + k) b ≡ drop k (drop i b)
  drop_add zero k b = ap (λ n. drop n b) (omega arith)
  drop_add (suc i) k [] = drop_nil (suc i + k) ∙ sym (drop_nil k)
  drop_add (suc i) k (x ∷ b) = ap (λ n. drop n (x ∷ b)) (suc_add i k) ∙ drop_add i k b

  take_nil : (k : ℕ) → ◌≡◌ {A = List A} (take k []) []
  take_nil zero = refl
  take_nil (suc k) = refl

  pub drop-take : (lo k : ℕ) (b : List A) → drop lo (take (lo + k) b) ≡ take k (drop lo b)
  drop-take zero k b = ap (λ n. take n b) (omega arith)
  drop-take (suc lo) k [] = ap (drop (suc lo)) (take_nil (suc lo + k)) ∙ sym (take_nil k)
  drop-take (suc lo) k (x ∷ b) =
      ap (λ n. drop (suc lo) (take n (x ∷ b))) (suc_add lo k) ∙ drop-take lo k b

  pub take_add : (i k : ℕ) (b : List A) → take (i + k) b ≡ take i b ++ take k (drop i b)
  take_add zero k b = ap (λ n. take n b) (omega arith)
  take_add (suc i) k [] = take_nil (suc i + k) ∙ sym (take_nil k)
  take_add (suc i) k (x ∷ b) = ap (λ n. take n (x ∷ b)) (suc_add i k) ∙ ap (◌∷◌ x) (take_add i k b)

  pub take-append_of_le : (k : ℕ) (xs ys : List A) → k ≤ length xs → take k (xs ++ ys) ≡ take k xs
  take-append_of_le zero xs ys h = refl
  take-append_of_le (suc k) [] ys h = absurd (omega (arith, h))
  take-append_of_le (suc k) (x ∷ xs) ys h =
      ap (◌∷◌ x) (take-append_of_le k xs ys (omega (arith, h)))

  pub drop-append_of_le :
      (k : ℕ) (xs ys : List A) → k ≤ length xs → drop k (xs ++ ys) ≡ drop k xs ++ ys
  drop-append_of_le zero xs ys h = refl
  drop-append_of_le (suc k) [] ys h = absurd (omega (arith, h))
  drop-append_of_le (suc k) (x ∷ xs) ys h = drop-append_of_le k xs ys (omega (arith, h))

  pub drop-eq_of_length : (n : ℕ) (xs : List A) → length xs ≤ n → drop n xs ≡ []
  drop-eq_of_length zero [] h = refl
  drop-eq_of_length zero (x ∷ xs) h = absurd (omega (arith, h))
  drop-eq_of_length (suc n) [] h = refl
  drop-eq_of_length (suc n) (x ∷ xs) h = drop-eq_of_length n xs (omega (arith, h))

  pub take-min : (k : ℕ) (xs : List A) → take (min k (length xs)) xs ≡ take k xs
  take-min zero xs = ap (λ n. take n xs) (min_zero (length xs))
  take-min (suc k) [] = ap (λ n. take n []) (min_by_zero (suc k))
  take-min (suc k) (x ∷ xs) =
      ap (λ n. take n (x ∷ xs)) (min-suc k (length xs)) ∙ ap (◌∷◌ x) (take-min k xs)

  pub take-take_of_le : (k n : ℕ) (xs : List A) → k ≤ n → take k (take n xs) ≡ take k xs
  take-take_of_le zero n xs h = refl
  take-take_of_le (suc k) zero xs h = absurd (omega (arith, h))
  take-take_of_le (suc k) (suc n) [] h = refl
  take-take_of_le (suc k) (suc n) (x ∷ xs) h =
      ap (◌∷◌ x) (take-take_of_le k n xs (omega (arith, h)))
