-- ===== src/Nic/Sequence.antt =====
-- Addresses that go up by one.
use gprovision.Nic.{sequential}
use gprovision.Prelude.{
  ==_iff, All, Bool-cases, List, [], ap, arith, inl, inr, length, suc, true, zero, ℕ, ◌+◌, ◌<◌,
  ◌==◌, ◌↔◌, ◌∷◌, ◌≡◌,
}

-- `n` numbers from `m` on.
unfoldable pub count_from : ℕ → ℕ → List ℕ
count_from m zero = []
count_from m (suc n) = m ∷ count_from (m + 1) n

-- `Sequential` holds exactly if the numbers, all of 48 bits, go up by one from the first.
pub sequential_iff :
    (m : ℕ) (ms : List ℕ)
    → All (λ x. x < 281474976710656) (m ∷ ms)
    → (sequential (m ∷ ms) ≡ true) ↔ (m ∷ ms ≡ count_from m (length (m ∷ ms)))
unfolding sequential count_from
sequential_iff m [] h = ground arith
sequential_iff m (y ∷ ms) (hm, hs) =
    let later = sequential_iff y ms hs in
    elim (Bool-cases (m + 1 == y)) [
      | inl t ↦
          let moves : count_from (m + 1 + 1) (length ms) ≡ count_from (y + 1) (length ms) =
            ap (λ k. count_from (k + 1) (length ms)) ((==_iff (m + 1) y).0 t) in
          ground (arith, later, moves, t)
      | inr f ↦ ground (arith, f)
    ]
