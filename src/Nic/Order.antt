-- ===== src/Nic/Order.antt =====
-- The order of the numbers is the order of the addresses.
use gprovision.Nic.{be_value, umac_of}
use gprovision.Nic.Macs.{padded}
use gprovision.Prelude.{
  All, Bool, Bytes, IsByte, [], ap, arith, false, if◌then◌else◌, inl, inr, length, ltb, sym, true,
  ℕ, ◌*◌, ◌+◌, ◌<◌, ◌==◌, ◌↔◌, ◌∷◌, ◌≡◌, ◌⊎◌,
}

-- The order of byte strings of one length, from the first byte on.
unfoldable pub lex_lt : Bytes → Bytes → Bool
lex_lt [] ys = false
lex_lt (x ∷ xs) [] = false
lex_lt (x ∷ xs) (y ∷ ys) =
    let rest = lex_lt xs ys in if ltb x y then true else if x == y then rest else false

-- The number grows with the part that is already read.
be_value-lt :
    (xs ys : Bytes) (c d : ℕ)
    → length xs ≡ length ys
    → All IsByte xs
    → c < d
    → be_value c xs < be_value d ys
unfolding be_value
be_value-lt [] [] c d e h lt = lt
be_value-lt [] (y ∷ ys) c d e h lt = absurd (omega (arith, e))
be_value-lt (x ∷ xs) [] c d e h lt = absurd (omega (arith, e))
be_value-lt (x ∷ xs) (y ∷ ys) c d e (hx, hs) lt =
    be_value-lt xs ys (c * 256 + x) (d * 256 + y) (omega (arith, e)) hs (omega (arith, hx, lt))

order : (x y : ℕ) → (x < y) ⊎ ((x ≡ y) ⊎ (y < x))
order x y = ground arith

be_value_iff :
    (xs ys : Bytes) (c : ℕ)
    → length xs ≡ length ys
    → All IsByte xs
    → All IsByte ys
    → (be_value c xs < be_value c ys) ↔ (lex_lt xs ys ≡ true)
unfolding be_value lex_lt
be_value_iff [] [] c e h k = ground arith
be_value_iff [] (y ∷ ys) c e h k = absurd (omega (arith, e))
be_value_iff (x ∷ xs) [] c e h k = absurd (omega (arith, e))
be_value_iff (x ∷ xs) (y ∷ ys) c e (hx, hs) (ky, ks) =
    let es : length xs ≡ length ys = omega (arith, e) in
    let same = be_value_iff xs ys (c * 256 + x) es hs ks in
    elim (order x y) [
      | inl less ↦
          let lt = be_value-lt xs ys (c * 256 + x) (c * 256 + y) es hs (omega arith) in
          ground (arith, lt)
      | inr (inl tied) ↦
          let moves = ap (λ k. be_value (c * 256 + k) ys) tied in ground (arith, tied, same, moves)
      | inr (inr more) ↦
          let gt = be_value-lt ys xs (c * 256 + y) (c * 256 + x) (sym es) ks (omega arith) in
          ground (arith, gt)
    ]

-- `Less` on the numbers of two addresses of six bytes compares the addresses byte by byte.
umac_of_iff :
    (a b : Bytes)
    → length a ≡ 6
    → length b ≡ 6
    → All IsByte a
    → All IsByte b
    → (umac_of a < umac_of b) ↔ (lex_lt a b ≡ true)
unfolding umac_of be_value
umac_of_iff a b ea eb ha hb =
    rw (padded a ea, padded b eb) (be_value_iff a b 0 (omega (arith, ea, eb)) ha hb)
