-- ===== src/Qa/Dmi/Laws.antt =====
-- When DMI data and firmware versions match.
use gprovision.Prelude.{
  All, Bool-cases, Bytes, [], ap, arith, equal, equal_iff, false, inl, inr, refl, sym, ◌↔◌, ◌∙◌,
  ◌∷◌, ◌≡◌, ◌≢◌, ◌⊎◌,
}
use gprovision.Qa.Dmi.{
  DmiMap, FirmwareVer, dmi_compare, dmi_get, firmware_compare, init_dmi, is_comment, populate_dmi,
  version_errors,
}

-- An entry that is no comment has the value of the table.
abbrev pub Holds : (Bytes → Bytes) → Bytes × Bytes → Type 0
Holds table e = is_comment e.0 ≡ false → table e.0 ≡ e.1

abbrev pub HasKey : Bytes → DmiMap → Type 0
HasKey k [] = ⊥
HasKey k ((j, v) ∷ m) = (j ≡ k) ⊎ HasKey k m

later_key : (j k v : Bytes) (m : DmiMap) → equal j k ≡ false → HasKey k ((j, v) ∷ m) → HasKey k m
later_key j k v m f (inl e) = cc (sym f, (equal_iff j k).1 e)
later_key j k v m f (inr h) = h

dmi_get-populate_dmi :
    (table : Bytes → Bytes) (k : Bytes) (m : DmiMap)
    → HasKey k m
    → is_comment k ≡ false
    → dmi_get k (populate_dmi table (init_dmi m)) ≡ table k
unfolding dmi_get populate_dmi init_dmi
dmi_get-populate_dmi table k [] h c = absurd h
dmi_get-populate_dmi table k ((j, v) ∷ m) h c =
    let got : DmiMap → Bytes = λ x. dmi_get k (populate_dmi table x) in
    elim (Bool-cases (equal j k)) [
      | inl t ↦
          let e = (equal_iff j k).0 t in
          let no_comment : is_comment j ≡ false = rw e c in
          let step : init_dmi ((j, v) ∷ m) ≡ (j, []) ∷ init_dmi m =
            rw (init_dmi, no_comment) refl in
          ap got step ∙ rw (dmi_get, t) (ap table e)
      | inr f ↦
          let rest = dmi_get-populate_dmi table k m (later_key j k v m f h) c in
          elim (Bool-cases (is_comment j)) [
            | inl t ↦
                let step : init_dmi ((j, v) ∷ m) ≡ init_dmi m = rw (init_dmi, t) refl in
                ap got step ∙ rest
            | inr g ↦
                let step : init_dmi ((j, v) ∷ m) ≡ (j, []) ∷ init_dmi m = rw (init_dmi, g) refl in
                ap got step ∙ rw (dmi_get, f) rest
          ]
    ]

dmi_compare-populate_dmi_from :
    (table : Bytes → Bytes) (sub full : DmiMap)
    → ((k : Bytes) → HasKey k sub → HasKey k full)
    → (dmi_compare sub (populate_dmi table (init_dmi full)) ≡ 0) ↔ All (Holds table) sub
unfolding dmi_compare
dmi_compare-populate_dmi_from table [] full keys = ((λ e. tt), (λ t. refl))
dmi_compare-populate_dmi_from table ((k, v) ∷ sub) full keys =
    let rest = dmi_compare-populate_dmi_from table sub full (λ j h. keys j (inr h)) in
    elim (Bool-cases (is_comment k)) [
      | inl t ↦
          ((λ e. ((λ c. cc), rest.0 (ground (arith, e, t)))), (λ p. ground (arith, t, rest.1 p.1)))
      | inr f ↦
          let get = dmi_get-populate_dmi table k full (keys k (inl refl)) f in
          let same = equal_iff (dmi_get k (populate_dmi table (init_dmi full))) v in
          (
            (λ e. ((λ c. sym get ∙ same.0 (ground (arith, e, f))), rest.0 (ground (arith, e, f)))),
            (λ p. ground (arith, f, same.1 (get ∙ p.0 f), rest.1 p.1)),
          )
    ]

-- The DMI data that `Populate` reads for the entries of `InitDetected` match exactly if every entry
-- that is required, but for the comments, has its value in the tables.
dmi_compare-populate_dmi :
    (table : Bytes → Bytes) (required : DmiMap)
    → (dmi_compare required (populate_dmi table (init_dmi required)) ≡ 0)
      ↔ All (Holds table) required
dmi_compare-populate_dmi table required =
    dmi_compare-populate_dmi_from table required required (λ k h. h)

-- A version that is required is the one that is found.
abbrev pub IsVersion : Bytes → Bytes → Type 0
IsVersion required detected = required ≢ [] → required ≡ detected

version_errors_iff : (r d : Bytes) → (version_errors r d ≡ 0) ↔ IsVersion r d
version_errors_iff r d = elim (Bool-cases (equal r [])) [
  | inl t ↦ ((λ e n. absurd (n ((equal_iff r []).0 t))), (λ v. ground (arith, t)))
  | inr f ↦ elim (Bool-cases (equal r d)) [
    | inl t ↦ ((λ e n. (equal_iff r d).0 t), (λ v. ground (arith, t)))
    | inr g ↦ (
      (λ e. ground (arith, e, f, g)),
      (λ v. cc (sym g, (equal_iff r d).1 (v (λ n. cc (sym f, (equal_iff r []).1 n))))),
    )
  ]
]

pub firmware_compare_iff :
    (r d : FirmwareVer)
    → (firmware_compare r d ≡ 0) ↔ (
        IsVersion r.bios d.bios
        × IsVersion r.ipmi d.ipmi
        × IsVersion r.fru d.fru
        × IsVersion r.sdr d.sdr
        × IsVersion r.me d.me)
unfolding firmware_compare
firmware_compare_iff r d =
    let bios = version_errors_iff r.bios d.bios in
    let ipmi = version_errors_iff r.ipmi d.ipmi in
    let fru = version_errors_iff r.fru d.fru in
    let sdr = version_errors_iff r.sdr d.sdr in
    let me = version_errors_iff r.me d.me in
    (
      (λ e. (
        bios.0 (omega (arith, e)),
        ipmi.0 (omega (arith, e)),
        fru.0 (omega (arith, e)),
        sdr.0 (omega (arith, e)),
        me.0 (omega (arith, e)),
      )),
      (λ (a, b, c, f, g). omega (arith, bios.1 a, ipmi.1 b, fru.1 c, sdr.1 f, me.1 g)),
    )
