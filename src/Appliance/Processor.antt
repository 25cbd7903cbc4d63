-- ===== src/Appliance/Processor.antt =====
-- identify.go `processorMatch`.
pub mod Counts
use gprovision.Prelude.{
  Bool, Bytes, List, [], equal, false, if◌then◌else◌, split_on, trim_space, true, ◌∷◌,
}

-- The inner loop: the first processor that is there with this version is taken off.
unfoldable pub remove_version : Bytes → List Bytes → List Bytes
remove_version vc [] = []
remove_version vc (cc' ∷ ccs) =
    let rest = remove_version vc ccs in if equal (trim_space cc') vc then ccs else cc' ∷ rest

unfoldable pub remove_all : List Bytes → List Bytes → List Bytes
remove_all [] ccs = ccs
remove_all (vc ∷ vcs) ccs = remove_all vcs (remove_version vc ccs)

abbrev is_nil : List Bytes → Bool
is_nil [] = true
is_nil (c ∷ cs) = false

-- `processorMatch`, with the variant's processors and what DMI says of those that are there.
unfoldable pub processor_match : Bytes → Bytes → Bool
processor_match cpu version =
    if equal cpu []
    then true
    else is_nil (remove_all (split_on b'\n' cpu) (split_on b'\n' (trim_space version)))
