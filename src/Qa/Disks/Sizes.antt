-- ===== src/Qa/Disks/Sizes.antt =====
-- Sizes of disks: the tolerance, and what `populate` finds.
use gprovision.Prelude.{
  Bool-cases, Bytes, List, [], arith, equal, false, if◌then◌else◌, inl, inr, refl, true, ℕ, ◌&&◌,
  ◌*◌, ◌+◌, ◌<◌, ◌↔◌, ◌∙◌, ◌∷◌, ◌≡◌, ◌≢◌, ◌≤◌,
}
use gprovision.Qa.Disks.{
  BlockDev, Disk, is_model, populate, populate_from, populate_match, size_tolerance_match,
}

-- For sizes below 2^63 and a tolerance that does not overflow, `SizeToleranceMatch` holds exactly
-- if the sizes differ by at most the tolerance, in hundredths of the size that is wanted.
pub size_tolerance_match_iff :
    (have want tol : ℕ)
    → have < 9223372036854775808
    → want < 9223372036854775808
    → want * tol < 18446744073709551616
    → (size_tolerance_match have want tol ≡ true)
      ↔ ((100 * have ≤ 100 * want + want * tol) × (100 * want ≤ 100 * have + want * tol))
unfolding size_tolerance_match
size_tolerance_match_iff have want tol h w t =
    ((λ e. (ground arith, ground arith)), (λ p. ground (arith, p.0, p.1)))

-- The devices of a vendor and model.
abbrev pub count_model : Bytes → Bytes → List BlockDev → ℕ
count_model v m [] = 0
count_model v m (b ∷ bs) =
    (if equal b.dev_vendor v && equal b.dev_model m then 1 else 0) + count_model v m bs

-- All devices of a vendor and model have this size.
abbrev pub AllOfSize : Bytes → Bytes → ℕ → List BlockDev → Type 0
AllOfSize v m s [] = Unit
AllOfSize v m s (b ∷ bs) =
    ((equal b.dev_vendor v && equal b.dev_model m) ≡ true → b.dev_size ≡ s) × AllOfSize v m s bs

populate_match_model :
    (b : BlockDev) (d : Disk)
    → ((populate_match b d).vendor ≡ d.vendor) × ((populate_match b d).model ≡ d.model)
unfolding populate_match
populate_match_model b d = (ground arith, ground arith)

populate_match_size :
    (b : BlockDev) (d : Disk) (s : ℕ)
    → s ≢ 0
    → (populate_match b d).size ≡ s
    → (b.dev_size ≡ s) × (0 < d.quantity → d.size ≡ s)
unfolding populate_match
populate_match_size b d s nz e = (ground arith, λ q. ground arith)

populate_match_quantity : (b : BlockDev) (d : Disk) → (populate_match b d).quantity ≡ d.quantity + 1
unfolding populate_match
populate_match_quantity b d = ground arith

populate_from-quantity :
    (v m : Bytes) (bs : List BlockDev) (d : Disk)
    → d.vendor ≡ v
    → d.model ≡ m
    → (populate_from bs d).quantity ≡ d.quantity + count_model v m bs
unfolding populate_from
populate_from-quantity v m [] d e f = omega arith
populate_from-quantity v m (b ∷ bs) d e f = elim (Bool-cases (is_model b d)) [
  | inl t ↦
      let (e', f') = populate_match_model b d in
      let later = populate_from-quantity v m bs (populate_match b d) (e' ∙ e) (f' ∙ f) in
      let counted : (equal b.dev_vendor v && equal b.dev_model m) ≡ true = rw (← e, ← f) t in
      rw (populate_from, t, counted) (omega (arith, later, populate_match_quantity b d))
  | inr t ↦
      let later = populate_from-quantity v m bs d e f in
      let counted : (equal b.dev_vendor v && equal b.dev_model m) ≡ false = rw (← e, ← f) t in
      rw (populate_from, t, counted) (omega (arith, later))
]

populate_from-size :
    (v m : Bytes) (bs : List BlockDev) (d : Disk) (s : ℕ)
    → d.vendor ≡ v
    → d.model ≡ m
    → s ≢ 0
    → (populate_from bs d).size ≡ s
    → AllOfSize v m s bs × (0 < d.quantity → d.size ≡ s)
unfolding populate_from
populate_from-size v m [] d s e f nz h = (tt, λ q. h)
populate_from-size v m (b ∷ bs) d s e f nz h = elim (Bool-cases (is_model b d)) [
  | inl t ↦
      let (e', f') = populate_match_model b d in
      let h' : (populate_from bs (populate_match b d)).size ≡ s = rw (populate_from, t) at h in
      let (all, size) = populate_from-size v m bs (populate_match b d) s (e' ∙ e) (f' ∙ f) nz h' in
      let (one, before) =
        populate_match_size b d s nz (size (omega (arith, populate_match_quantity b d))) in
      (((λ c. one), all), before)
  | inr t ↦
      let h' : (populate_from bs d).size ≡ s = rw (populate_from, t) at h in
      let counted : (equal b.dev_vendor v && equal b.dev_model m) ≡ false = rw (← e, ← f) t in
      let (all, before) = populate_from-size v m bs d s e f nz h' in (((λ c. cc), all), before)
]

-- `Populate` counts the devices of the vendor and model, and a size other than 0 is that of all of
-- them.
pub populate_lem :
    (devs : List BlockDev) (d : Disk) (s : ℕ)
    → s ≢ 0
    → ((populate devs d).quantity ≡ count_model d.vendor d.model devs)
      × ((populate devs d).size ≡ s → AllOfSize d.vendor d.model s devs)
unfolding populate
populate_lem devs d s nz =
    let d' = record d { quantity = 0 } in
    (
      populate_from-quantity d.vendor d.model devs d' refl refl ∙ omega arith,
      λ h. (populate_from-size d.vendor d.model devs d' s refl refl nz h).0,
    )
