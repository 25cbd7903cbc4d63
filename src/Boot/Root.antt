-- ===== src/Boot/Root.antt =====
-- pkg/init/init.go `getRoot`: the device of the root file system.
use gprovision.Prelude.{
  Bool, Bytes, List, NoByte, [], codes, equal, false, if◌then◌else◌, refl, split_on, split_on_first,
  split_on_none, to_lower, true, ◌++◌, ◌∷◌, ◌≡◌,
}

unfoldable pub is_listed : Bytes → List Bytes → Bool
is_listed id [] = false
is_listed id (t ∷ ts) = let rest = is_listed id ts in if equal id t then true else rest

-- `validIdType`
unfoldable pub valid_id_type : Bytes → Bool
valid_id_type id = is_listed id (
    codes "id"
    ∷ codes "label"
    ∷ codes "partlabel"
    ∷ codes "partuuid"
    ∷ codes "path"
    ∷ codes "uuid"
    ∷ [])

abbrev pub by_label : Bytes → Bytes
by_label pri_vol = codes "/dev/disk/by-label/" ++ pri_vol

-- `getRoot`, with the name of the primary volume.
unfoldable pub get_root : Bytes → Bytes → Bytes
get_root pri_vol rr = elements_root (split_on b'=' rr)
  where
    elements_root : List Bytes → Bytes
    elements_root (t ∷ ident ∷ []) =
        if valid_id_type (to_lower t)
        then codes "/dev/disk/by-" ++ (to_lower t ++ (codes "/" ++ ident))
        else by_label pri_vol
    elements_root [] = by_label pri_vol
    elements_root (t ∷ []) = by_label pri_vol
    elements_root (t ∷ ident ∷ u ∷ us) = by_label pri_vol

-- `getRoot` of a type and an identifier, neither of which has an equals sign, with an equals sign
-- between them, is the device of that identifier if the type, in lower case, is one that is known,
-- and the device of the primary volume otherwise.
pub get_root_lem :
    (pri_vol t ident : Bytes)
    → NoByte b'=' t
    → NoByte b'=' ident
    → get_root pri_vol (t ++ b'=' ∷ ident) ≡ (
        if valid_id_type (to_lower t)
        then codes "/dev/disk/by-" ++ (to_lower t ++ (codes "/" ++ ident))
        else by_label pri_vol)
unfolding get_root
get_root_lem pri_vol t ident h hi =
    rw (split_on_first b'=' t ident h, split_on_none b'=' ident hi) refl
