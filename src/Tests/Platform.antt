-- ===== src/Tests/Platform.antt =====
-- Identification, interrupts and processors at concrete inputs.
use gprovision.Appliance.Identify.{
  Dmi, Variant, VariantData, check_model_re, first_match, identify, match_variant, search_variants,
}
use gprovision.Appliance.Identify.Sound.{Fits, identify-Fits}
use gprovision.Appliance.Prefixes.{
  Written, hex_digit, hex_octet, hex_prefix, mac_prefixes, mac_prefixes-Written,
}
use gprovision.Appliance.Processor.{processor_match}
use gprovision.Appliance.Processor.Counts.{count_version, processor_match_iff, trimmed}
use gprovision.Cpu.{Topology, contains, lowest_from, set_size, weight}
use gprovision.Cpu.Chosen.{Visits}
use gprovision.Cpu.Chosen.Lightest.{lowest_from_lem}
use gprovision.Cpu.Counts.{Distinct, keys}
use gprovision.Nic.Rss.{find_irqs, rss_config}
use gprovision.Nic.Rss.Bound.{bound_cpus, bound_irqs, rss_config-Distinct}
use gprovision.Prelude.{
  Bytes, List, [], arith, codes, equal, false, if◌then◌else◌, length, ltb, none, refl, some,
  split_on, take, trim_by, trim_byte, trim_left_by, trim_space, true, ℕ, ◌*◌, ◌+◌, ◌==◌, ◌↔◌, ◌∷◌,
  ◌≡◌, ◌≤◌, ◌⊎◌,
}

abbrev known_variant : VariantData
known_variant = record {
  dmi_mb_mfg = codes "Acme";
  dmi_prod_name = codes "P1";
  dmi_prod_model_regex = [];
  dmi_pm_override_typ = 0;
  dmi_pm_override_fld = [];
  cpu = [];
  ser_num_field = codes "system-serial-number";
  dev_code_name = codes "v1";
  disk_stol = 0;
  disk_ttol = 0;
}

-- What dmidecode prints for each name.
abbrev dmi_text : Bytes → Bytes
dmi_text k = if equal k (codes "baseboard-manufacturer") then codes "Acme" else codes "P1"

abbrev tables : Dmi
tables = record {
  dmi_string = dmi_text;
  dmi_field = λ typ fld. codes "S1";
  compile = λ re. some (λ text. true);
}

abbrev found_variant : Variant
found_variant = record {
  i = known_variant;
  mfg = codes "Acme";
  prod = codes "P1";
  sku = codes "S1";
  serial = codes "P1";
}

is_found : identify tables (known_variant ∷ []) none ≡ some found_variant
unfolding identify search_variants first_match match_variant check_model_re processor_match equal
is_found = refl

identify-Fits_example :
    Fits tables (known_variant ∷ []) (codes "Acme") (codes "P1") found_variant
    ⊎ ((first_match tables (codes "Acme") (codes "P1") (codes "S1") (known_variant ∷ []) ≡ none)
        × Fits tables (known_variant ∷ []) (codes "P1") (codes "P1") found_variant)
unfolding equal
identify-Fits_example = identify-Fits tables (known_variant ∷ []) is_found

processor_match_iff_example : (processor_match (codes "A") (codes "A") ≡ true) ↔ (
    (v : Bytes)
    → count_version v (trimmed (split_on b'\n' (trim_space (codes "A"))))
      ≤ count_version v (split_on b'\n' (codes "A")))
processor_match_iff_example =
    processor_match_iff (codes "A") (codes "A") (λ e. absurd (ground (arith, e)))

abbrev pfx_text : List Bytes
pfx_text = codes "00:1a:" ∷ codes "ff" ∷ []

abbrev pfx_octets : List Bytes
pfx_octets = (0 ∷ 26 ∷ []) ∷ (255 ∷ []) ∷ []

octets_ok : Written pfx_text pfx_octets
unfolding Written hex_prefix hex_octet hex_digit trim_byte trim_by trim_left_by
octets_ok = (refl, ((omega arith, (omega arith, tt)), (refl, ((omega arith, tt), tt))))

mac_prefixes-Written_example : mac_prefixes pfx_text ≡ pfx_octets
mac_prefixes-Written_example = mac_prefixes-Written pfx_text pfx_octets octets_ok

abbrev two_cpus : Topology
two_cpus = record {
  num_cpus = 2;
  all_cpus = 0 ∷ 1 ∷ [];
  thread_sib = λ c. 0 ∷ 1 ∷ [];
  core_sib = λ c. 0 ∷ 1 ∷ [];
  lighter = λ a b. ltb (a.own * 2 + a.threads) (b.own * 2 + b.threads);
  visit = keys;
}

key_order : Visits two_cpus
unfolding Visits
key_order uc h = (h, λ c. refl)

no_repeats : Distinct two_cpus.all_cpus
unfolding Distinct contains
no_repeats = (refl, (refl, tt))

no_keys : Distinct (keys [])
unfolding Distinct keys
no_keys = tt

one_is_heavier :
    two_cpus.lighter
      (weight two_cpus [] 1)
      (weight two_cpus [] (lowest_from two_cpus [] [] true 0 (0 ∷ 1 ∷ [])))
    ≡ false
unfolding contains
one_is_heavier =
    lowest_from_lem two_cpus [] [] ((λ a. ground arith), λ a b c p q. ground (arith, p, q)) 1 0
      (0 ∷ 1 ∷ []) refl refl

abbrev queue_name : ℕ → Bytes
queue_name i = if i == 47 then codes "eno1" else codes "eno1-TxRx-0"

abbrev irq_names : List Bytes
irq_names = codes "47" ∷ codes "48" ∷ codes "49" ∷ []

rss_config-Distinct_example :
    (bound : List (ℕ × ℕ)) × ((rss_config queue_name two_cpus (some irq_names) []).0 ≡ some bound)
    × Distinct (bound_cpus bound)
    × (bound_irqs bound
        ≡ take
            (set_size two_cpus (length (find_irqs queue_name (some irq_names))))
            (find_irqs queue_name (some irq_names)))
rss_config-Distinct_example =
    rss_config-Distinct queue_name two_cpus (some irq_names) [] key_order no_repeats (omega arith)
      no_keys
