-- ===== src/Appliance/Processor/Counts.antt =====
-- The processors that are there, counted.
use gprovision.Appliance.Processor.{is_nil, processor_match, remove_all, remove_version}
use gprovision.Prelude.{
  Bool-cases, Bytes, List, [], ap, arith, equal, equal_iff, equal_refl, if◌then◌else◌, inl, inr,
  ltb, refl, split_on, trim_space, true, ℕ, ◌&&◌, ◌+◌, ◌-◌, ◌↔◌, ◌∷◌, ◌≡◌, ◌≢◌, ◌≤◌,
}

-- How often a version is in a list.
abbrev pub count_version : Bytes → List Bytes → ℕ
count_version v [] = 0
count_version v (c ∷ cs) = (if equal c v then 1 else 0) + count_version v cs

abbrev pub trimmed : List Bytes → List Bytes
trimmed [] = []
trimmed (c ∷ cs) = trim_space c ∷ trimmed cs

count-remove_version :
    (v vc : Bytes) (ccs : List Bytes)
    → count_version v (trimmed (remove_version vc ccs))
      ≡ count_version v (trimmed ccs)
        - (if equal vc v && ltb 0 (count_version v (trimmed ccs)) then 1 else 0)
unfolding remove_version
count-remove_version v vc [] = omega arith
count-remove_version v vc (c ∷ ccs) =
    let t = trim_space c in
    let rest = count-remove_version v vc ccs in
    ground (arith, rest, equal_iff t vc, equal_iff vc v, equal_iff t v)

count-remove_all :
    (v : Bytes) (vcs ccs : List Bytes)
    → count_version v (trimmed (remove_all vcs ccs))
      ≡ count_version v (trimmed ccs) - count_version v vcs
unfolding remove_all
count-remove_all v [] ccs = omega arith
count-remove_all v (vc ∷ vcs) ccs =
    let rest = count-remove_all v vcs (remove_version vc ccs) in
    ground (arith, rest, count-remove_version v vc ccs)

nil_of_counts : (ccs : List Bytes) → ((v : Bytes) → count_version v (trimmed ccs) ≡ 0) → ccs ≡ []
nil_of_counts [] h = refl
nil_of_counts (c ∷ ccs) h = absurd (ground (arith, h (trim_space c), equal_refl (trim_space c)))

is_nil→nil : (l : List Bytes) → is_nil l ≡ true → l ≡ []
is_nil→nil [] h = refl
is_nil→nil (x ∷ l) h = cc

-- A variant that names its processors matches exactly if no version is there more often than the
-- variant names it; processors that it names may be missing.
pub processor_match_iff :
    (cpu version : Bytes)
    → cpu ≢ []
    → (processor_match cpu version ≡ true) ↔ (
        (v : Bytes)
        → count_version v (trimmed (split_on b'\n' (trim_space version)))
          ≤ count_version v (split_on b'\n' cpu))
unfolding processor_match
processor_match_iff cpu version named =
    let vcs = split_on b'\n' cpu in
    let ccs = split_on b'\n' (trim_space version) in
    let counts : (v : Bytes)
        → count_version v (trimmed (remove_all vcs ccs))
          ≡ count_version v (trimmed ccs) - count_version v vcs =
      λ v. count-remove_all v vcs ccs in
    elim (Bool-cases (equal cpu [])) [
      | inl t ↦ absurd (named ((equal_iff cpu []).0 t))
      | inr f ↦ (
        (λ h v.
            let empty : remove_all vcs ccs ≡ [] =
              is_nil→nil (remove_all vcs ccs) (ground (arith, h, f)) in
            omega (arith, counts v, ap (λ l. count_version v (trimmed l)) empty)),
        (λ h.
            let empty = nil_of_counts (remove_all vcs ccs) (λ v. omega (arith, counts v, h v)) in
            rw (f, empty) refl),
      )
    ]
