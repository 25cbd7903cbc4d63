-- ===== src/Nic/Macs.antt =====
-- MAC addresses as numbers and back.
use gprovision.Nic.{be_bytes, be_value, mac_of, umac_of}
use gprovision.Prelude.{
  All, Bytes, IsByte, [], ap, append-nil, append_assoc, arith, drop, length, refl, replicate, suc,
  sym, take, take-eq_of_length, ℕ, ◌%◌, ◌*◌, ◌++◌, ◌+◌, ◌-◌, ◌/◌, ◌∙◌, ◌∷◌, ◌≡◌,
}

be_bytes-step : (n m b : ℕ) → IsByte b → be_bytes (suc n) (m * 256 + b) ≡ be_bytes n m ++ b ∷ []
unfolding be_bytes
be_bytes-step n m b h =
    let high : (m * 256 + b) / 256 ≡ m = omega arith in
    let low : (m * 256 + b) % 256 ≡ b = omega arith in rw (high, low)

be_bytes-be_value :
    (k acc : ℕ) (bs : Bytes)
    → All IsByte bs
    → be_bytes (k + length bs) (be_value acc bs) ≡ be_bytes k acc ++ bs
unfolding be_value
be_bytes-be_value k acc [] h =
    let all_used : k + 0 ≡ k = omega arith in
    ap (λ n. be_bytes n acc) all_used ∙ sym (append-nil (be_bytes k acc))
be_bytes-be_value k acc (b ∷ bs) (hb, hs) =
    let one_more : k + length (b ∷ bs) ≡ suc k + length bs = omega arith in
    ap (λ n. be_bytes n (be_value (acc * 256 + b) bs)) one_more
    ∙ be_bytes-be_value (suc k) (acc * 256 + b) bs hs
    ∙ ap (λ front. front ++ bs) (be_bytes-step k acc b hb)
    ∙ append_assoc (be_bytes k acc) (b ∷ []) bs

pub padded : (a : Bytes) → length a ≡ 6 → take 6 a ++ replicate (6 - length a) 0 ≡ a
padded a e =
    let none_missing : 6 - length a ≡ 0 = omega (arith, e) in
    rw (none_missing, take-eq_of_length 6 a (omega (arith, e))) (append-nil a)

be_bytes-zero : be_bytes 0 0 ≡ []
unfolding be_bytes
be_bytes-zero = refl

-- An address of six bytes is the one that is read back from its number.
pub mac_of-umac_of : (a : Bytes) → length a ≡ 6 → All IsByte a → mac_of (umac_of a) ≡ a
unfolding mac_of umac_of
mac_of-umac_of a e h =
    let all_bytes : All IsByte (0 ∷ 0 ∷ a) = (omega arith, (omega arith, h)) in
    let eight : 8 ≡ 0 + length (0 ∷ 0 ∷ a) = omega (arith, e) in
    let whole =
      be_bytes-be_value 0 0 (0 ∷ 0 ∷ a) all_bytes
      ∙ ap (λ front. front ++ 0 ∷ 0 ∷ a) be_bytes-zero in
    rw (padded a e) (ap (drop 2) (ap (λ n. be_bytes n (be_value 0 (0 ∷ 0 ∷ a))) eight ∙ whole))
