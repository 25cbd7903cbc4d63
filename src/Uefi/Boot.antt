-- ===== src/Uefi/Boot.antt =====
-- boot.go, and `Ours` and `IsOurs` of vars.go: the boot entries that the appliance must have.
pub mod Entries
use gprovision.Prelude.{
  Bool, Bytes, List, Option, [], codes, equal, false, if◌then◌else◌, length, none, not, some, true,
  ℕ, ◌&&◌, ◌++◌, ◌==◌, ◌∷◌,
}

pub data BootLabel : Type 0 where
  label_fr label_norm label_erase : BootLabel

-- BootLabelFR, BootLabelNorm, BootLabelErase
unfoldable pub label_text : BootLabel → Bytes
label_text label_fr = codes "Forced Factory Restore"
label_text label_norm = codes "Normal Boot"
label_text label_erase = codes "Data Erase (DANGER!)"

-- The fields of a BootEntryVar that are read here.
pub record BootEntryVar : Type 0 where
  pub number : ℕ
  pub description : Bytes

-- The switch on a description.
unfoldable pub label_of : BootEntryVar → Option BootLabel
label_of b =
    if equal b.description (label_text label_fr)
    then some label_fr
    else if equal b.description (label_text label_norm)
    then some label_norm
    else if equal b.description (label_text label_erase)
    then some label_erase
    else none

-- `IsOurs`
unfoldable pub is_ours : BootEntryVar → Bool
is_ours b = elim (label_of b) [ none ↦ false | some l ↦ true ]

-- `Ours`
unfoldable pub ours : List BootEntryVar → List BootEntryVar
ours [] = []
ours (b ∷ bs) = let rest = ours bs in if is_ours b then b ∷ rest else rest

pub record Have : Type 0 where
  pub normal : Bool
  pub fr : Bool
  pub erase : Bool

abbrev note_label : Option BootLabel → Have → Have
note_label none h = h
note_label (some label_fr) h = record h { fr = true }
note_label (some label_norm) h = record h { normal = true }
note_label (some label_erase) h = record h { erase = true }

-- The loop of `CheckMissing`.
unfoldable pub check_from : Have → List BootEntryVar → Have
check_from h [] = h
check_from h (b ∷ bs) = check_from (note_label (label_of b) h) bs

unfoldable pub check_missing : List BootEntryVar → Have
check_missing bs = check_from (record { normal = false; fr = false; erase = false }) bs

-- `OursPresent`
unfoldable pub ours_present : List BootEntryVar → Bool
ours_present bs =
    if not (length (ours bs) == 3)
    then false
    else let h = check_missing (ours bs) in h.normal && h.fr && h.erase

-- What `AddBootEntry` is given: the label, the arguments, and whether the entry joins the boot order.
pub record BootEntry : Type 0 where
  pub label : BootLabel
  pub args : Bytes
  pub auto_boot : Bool

-- The entries that `fixMissing` adds, in order, with the names that the build sets.
unfoldable pub fix_missing : Bytes → Bytes → Bytes → Bytes → Have → List BootEntry
fix_missing erase_env pri_vol base_args extra_opts h =
    (if not h.erase
      then record { label = label_erase; args = erase_env ++ codes "=1"; auto_boot = false } ∷ []
      else [])
    ++ (if not h.fr
        then record { label = label_fr; args = base_args; auto_boot = false } ∷ []
        else [])
    ++ (if not h.normal
        then record {
          label = label_norm;
          args = base_args ++ codes " real_root=LABEL=" ++ pri_vol ++ codes " " ++ extra_opts;
          auto_boot = true;
        }
          ∷ []
        else [])
