-- ===== src/Archive.antt =====
-- pkg/recovery/archive/ar.go and pkg/disktag: which update file is used, and the tag that names its
-- image in the history.
pub mod Choice
pub mod Repeats
pub mod Dates
use gprovision.History.{ImageResult, check}
use gprovision.Prelude.{
  Bool, Bytes, List, Option, [], base, codes, has_prefix, has_suffix, if◌then◌else◌, length, none,
  not, replace_first, some, trim_prefix, trim_suffix, ◌&&◌, ◌++◌, ◌==◌, ◌∷◌,
}

-- `ImgToDTag`, with the platform's name.
unfoldable pub img_to_dtag : Bytes → Bytes → Bytes
img_to_dtag platform img = replace_first img (codes "HW") platform

-- `Set` and `Get` of pkg/disktag.
unfoldable pub set_tag : Bytes → Bytes
set_tag t = t ++ codes ".disktag"

unfoldable pub get_tag : Bytes → Bytes
get_tag tag = trim_suffix tag (codes ".disktag")

-- `trimmedName`; `emerg_pfx` is the prefix of emergency images.
unfoldable pub trimmed_name : Bytes → Bytes → Bytes
trimmed_name emerg_pfx upd =
    let name = trim_suffix (base upd) (codes ".upd") in
    trim_prefix (trim_prefix name emerg_pfx) (codes "_")

-- A directory entry that `listUpdates` sees, and whether `IsXZSha256` accepts the file.
pub record DirEntry : Type 0 where
  pub name : Bytes
  pub is_dir : Bool
  pub signed : Bool

-- The loop of `listUpdates`.
unfoldable pub list_unsorted : Bytes → Bytes → List DirEntry → List Bytes
list_unsorted img_prefix dir [] = []
list_unsorted img_prefix dir (e ∷ es) =
    let rest = list_unsorted img_prefix dir es in
    if e.is_dir
    then rest
    else if not (has_suffix e.name (codes ".upd"))
    then rest
    else if not (has_prefix e.name img_prefix)
    then rest
    else if e.signed
    then (dir ++ codes "/" ++ e.name) ∷ rest
    else rest

-- What `findValidUpd` asks of the rest of the system: the tag of an update, and whether
-- `validateExtractUpd` accepts it.
module _ (dtag_of : Bytes → Bytes) (extracts : Bytes → Bool) where
  -- `findValidUpd`: the update found, whose tag is set.
  unfoldable pub find_valid_upd : List ImageResult → List Bytes → Option Bytes
  find_valid_upd rs [] = none
  find_valid_upd rs (upd ∷ rest) =
      let later = find_valid_upd rs rest in
      if not (check (dtag_of upd) rs) && not (length rest == 0)
      then later
      else if extracts upd
      then some upd
      else later
