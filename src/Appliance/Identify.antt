-- ===== src/Appliance/Identify.antt =====
-- identify.go and variant.go: the variants that are known, and which of them this appliance is.
pub mod Sound
use gprovision.Appliance.Processor.{processor_match}
use gprovision.Prelude.{
  Bool, Bytes, List, Option, [], codes, equal, if◌then◌else◌, none, some, ℕ, ◌&&◌, ◌==◌, ◌∷◌,
}

-- The fields of `Variant_` that are read here.
pub record VariantData : Type 0 where
  pub dmi_mb_mfg : Bytes
  pub dmi_prod_name : Bytes
  pub dmi_prod_model_regex : Bytes
  pub dmi_pm_override_typ : ℕ
  pub dmi_pm_override_fld : Bytes
  pub cpu : Bytes
  pub ser_num_field : Bytes
  pub dev_code_name : Bytes
  pub disk_stol : ℕ
  pub disk_ttol : ℕ

-- `Variant`
pub record Variant : Type 0 where
  pub i : VariantData
  pub mfg : Bytes
  pub prod : Bytes
  pub sku : Bytes
  pub serial : Bytes

-- What dmidecode says (`dmi.String`, `dmi.Field`), and regular expressions, which may not compile.
pub record Dmi : Type 0 where
  pub dmi_string : Bytes → Bytes
  pub dmi_field : ℕ → Bytes → Bytes
  pub compile : Bytes → Option (Bytes → Bool)

module _ (dmi : Dmi) where
  abbrev sku_of : Bytes → VariantData → Bytes
  sku_of sku v =
      if equal v.dmi_pm_override_fld []
      then sku
      else dmi.dmi_field v.dmi_pm_override_typ v.dmi_pm_override_fld

  -- `checkModelRe`
  unfoldable pub check_model_re : Bytes → VariantData → Option Bytes
  check_model_re sku v = elim (dmi.compile v.dmi_prod_model_regex) [
    | none ↦ none
    | some re ↦ if re (sku_of sku v) then some (sku_of sku v) else none
  ]

  abbrev variant_of : Bytes → Bytes → Bytes → VariantData → Variant
  variant_of mfg prod sku v = record {
    i = v;
    mfg = mfg;
    prod = prod;
    sku = sku;
    serial = dmi.dmi_string v.ser_num_field;
  }

  -- A round of the loops of `Identify`.
  unfoldable pub match_variant : Bytes → Bytes → Bytes → VariantData → Option Variant
  match_variant mfg prod sku v =
      if equal mfg v.dmi_mb_mfg && equal prod v.dmi_prod_name
      then elim (check_model_re sku v) [
        | none ↦ none
        | some sku' ↦
            if processor_match v.cpu (dmi.dmi_string (codes "processor-version"))
            then some (variant_of mfg prod sku' v)
            else none
      ]
      else none

  unfoldable pub first_match : Bytes → Bytes → Bytes → List VariantData → Option Variant
  first_match mfg prod sku [] = none
  first_match mfg prod sku (v ∷ vs) = elim (match_variant mfg prod sku v) [
    | some r ↦ some r
    | none ↦ first_match mfg prod sku vs
  ]

  -- The two loops: by the baseboard, then by the system.
  unfoldable pub search_variants : List VariantData → Option Variant
  search_variants vs =
      let sku = dmi.dmi_field 1 (codes "SKU Number:") in
      elim (first_match (dmi.dmi_string (codes "baseboard-manufacturer"))
        (dmi.dmi_string (codes "baseboard-product-name")) sku vs) [
          | some r ↦ some r
          | none ↦
              first_match (dmi.dmi_string (codes "system-manufacturer"))
                (dmi.dmi_string (codes "system-product-name")) sku vs
        ]

  -- `Identify`, from `identifiedVariant` to what it returns and leaves there.
  unfoldable pub identify : List VariantData → Option Variant → Option Variant
  identify vs (some r) = some r
  identify vs none = search_variants vs

  -- `ReIdentify`
  unfoldable pub reidentify : List VariantData → Option Variant → Option Variant
  reidentify vs identified = identify vs none

  -- The loop of `IdentifyWithFallback`: the variant of a code name.
  unfoldable pub by_code_name : Bytes → List VariantData → Option Variant
  by_code_name ident [] = none
  by_code_name ident (v ∷ vs) =
      let later = by_code_name ident vs in
      if equal v.dev_code_name ident
      then some (record {
        i = v;
        mfg = v.dmi_mb_mfg;
        prod = v.dmi_prod_name;
        sku = sku_of (dmi.dmi_field 1 (codes "SKU Number:")) v;
        serial = dmi.dmi_string v.ser_num_field;
      })
      else later

  -- `IdentifyWithFallback`, with what the fallback returns; `none` for an error. The variant can be
  -- nil with no error.
  unfoldable pub identify_with_fallback :
      List VariantData → Option Bytes → Option Variant → Option (Option Variant)
  identify_with_fallback vs fallback identified = elim (identify vs identified) [
    | some r ↦ some (some r)
    | none ↦ elim fallback [ none ↦ none | some ident ↦ some (by_code_name ident vs) ]
  ]

-- `DiskSetTol`, `DiskTgtTol`: 0 stands for a field that is left out.
unfoldable pub disk_set_tol : VariantData → ℕ
disk_set_tol v = if v.disk_stol == 0 then 1 else v.disk_stol

unfoldable pub disk_tgt_tol : VariantData → ℕ
disk_tgt_tol v = if v.disk_ttol == 0 then 5 else v.disk_ttol
