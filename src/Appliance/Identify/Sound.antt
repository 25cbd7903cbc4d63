-- ===== src/Appliance/Identify/Sound.antt =====
-- An appliance is identified as a variant only if it matches the variant.
use gprovision.Appliance.Identify.{
  Dmi, Variant, VariantData, check_model_re, first_match, identify, match_variant, search_variants,
  sku_of, variant_of,
}
use gprovision.Appliance.Processor.{processor_match}
use gprovision.Prelude.{
  Bool, Bool-cases, Bytes, List, Option-cases, [], ap, arith, codes, equal_iff, inl, inr, none,
  refl, some, sym, true, ◌∙◌, ◌∷◌, ◌≡◌, ◌⊎◌,
}

-- The variant is a known one, and all that it says of the hardware is so.
abbrev pub Known : VariantData → List VariantData → Type 0
Known v [] = ⊥
Known v (w ∷ vs) = (w ≡ v) ⊎ Known v vs

pub record Fits (dmi : Dmi) (vs : List VariantData) (mfg prod : Bytes) (r : Variant) : Type 0 where
  pub known : Known r.i vs
  pub same_mfg : r.i.dmi_mb_mfg ≡ mfg
  pub same_prod : r.i.dmi_prod_name ≡ prod
  pub mfg_kept : r.mfg ≡ mfg
  pub prod_kept : r.prod ≡ prod
  pub model :
      (re : Bytes → Bool) × (dmi.compile r.i.dmi_prod_model_regex ≡ some re) × (re r.sku ≡ true)
  pub processors : processor_match r.i.cpu (dmi.dmi_string (codes "processor-version")) ≡ true

module _ (dmi : Dmi) where
  check_model_re-matches :
      (sku : Bytes) (v : VariantData) {sku' : Bytes}
      → check_model_re dmi sku v ≡ some sku'
      → (re : Bytes → Bool) × (dmi.compile v.dmi_prod_model_regex ≡ some re) × (re sku' ≡ true)
  unfolding check_model_re
  check_model_re-matches sku v {sku'} e = elim (Option-cases (dmi.compile v.dmi_prod_model_regex)) [
    | inl f ↦ absurd (ground (arith, e, f))
    | inr (re, f) ↦ elim (Bool-cases (re (sku_of dmi sku v))) [
      | inl t ↦
          let same : sku_of dmi sku v ≡ sku' = ground (arith, e, f, t) in
          (re, f, ap re (sym same) ∙ t)
      | inr g ↦ absurd (ground (arith, e, f, g))
    ]
  ]

  match_variant-Fits :
      (mfg prod sku : Bytes) (v : VariantData) (vs : List VariantData) {r : Variant}
      → match_variant dmi mfg prod sku v ≡ some r
      → Fits dmi (v ∷ vs) mfg prod r
  unfolding match_variant
  match_variant-Fits mfg prod sku v vs {r} e =
      let version = dmi.dmi_string (codes "processor-version") in
      let m = equal_iff mfg v.dmi_mb_mfg in
      let p = equal_iff prod v.dmi_prod_name in
      elim (Option-cases (check_model_re dmi sku v)) [
        | inl f ↦ absurd (ground (arith, e, f))
        | inr (sku', f) ↦
            let same : r ≡ variant_of dmi mfg prod sku' v = ground (arith, e, f) in
            let cpus : processor_match v.cpu version ≡ true = ground (arith, e, f) in
            let same_mfg : mfg ≡ v.dmi_mb_mfg = m.0 (ground (arith, e)) in
            let same_prod : prod ≡ v.dmi_prod_name = p.0 (ground (arith, e)) in
            rw same (record {
              known = inl refl;
              same_mfg = sym same_mfg;
              same_prod = sym same_prod;
              mfg_kept = refl;
              prod_kept = refl;
              model = check_model_re-matches sku v f;
              processors = cpus;
            })
      ]

  later-Fits :
      (v : VariantData) (vs : List VariantData) (mfg prod : Bytes) {r : Variant}
      → Fits dmi vs mfg prod r
      → Fits dmi (v ∷ vs) mfg prod r
  later-Fits v vs mfg prod h = record {
    known = inr h.known;
    same_mfg = h.same_mfg;
    same_prod = h.same_prod;
    mfg_kept = h.mfg_kept;
    prod_kept = h.prod_kept;
    model = h.model;
    processors = h.processors;
  }

  first_match-Fits :
      (mfg prod sku : Bytes) (vs : List VariantData) {r : Variant}
      → first_match dmi mfg prod sku vs ≡ some r
      → Fits dmi vs mfg prod r
  unfolding first_match
  first_match-Fits mfg prod sku [] e = absurd (ground (arith, e))
  first_match-Fits mfg prod sku (v ∷ vs) e =
      elim (Option-cases (match_variant dmi mfg prod sku v)) [
        | inl f ↦ later-Fits v vs mfg prod (first_match-Fits mfg prod sku vs (ground (arith, e, f)))
        | inr (r', f) ↦ match_variant-Fits mfg prod sku v vs (f ∙ ground (arith, e, f))
      ]

  -- A variant that `Identify` finds is a known one that matches: by the manufacturer and product of
  -- the baseboard, or, if no variant matches by these, of the system; its regular expression matches
  -- the model, and its processors match.
  pub identify-Fits :
      (vs : List VariantData) {r : Variant}
      → identify dmi vs none ≡ some r
      → Fits dmi vs
          (dmi.dmi_string (codes "baseboard-manufacturer"))
          (dmi.dmi_string (codes "baseboard-product-name"))
          r
        ⊎ ((first_match dmi
                (dmi.dmi_string (codes "baseboard-manufacturer"))
                (dmi.dmi_string (codes "baseboard-product-name"))
                (dmi.dmi_field 1 (codes "SKU Number:"))
                vs
              ≡ none)
            × Fits dmi vs
                (dmi.dmi_string (codes "system-manufacturer"))
                (dmi.dmi_string (codes "system-product-name"))
                r)
  unfolding identify search_variants
  identify-Fits vs e =
      let sku = dmi.dmi_field 1 (codes "SKU Number:") in
      let mfg = dmi.dmi_string (codes "baseboard-manufacturer") in
      let prod = dmi.dmi_string (codes "baseboard-product-name") in
      let sys_mfg = dmi.dmi_string (codes "system-manufacturer") in
      let sys_prod = dmi.dmi_string (codes "system-product-name") in
      elim (Option-cases (first_match dmi mfg prod sku vs)) [
        | inl f ↦ inr (f, first_match-Fits sys_mfg sys_prod sku vs (ground (arith, e, f)))
        | inr (r', f) ↦ inl (first_match-Fits mfg prod sku vs (f ∙ ground (arith, e, f)))
      ]
