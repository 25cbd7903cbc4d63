-- ===== src/Prelude/Strings.antt =====
-- The functions of Go's packages `strings` and `path` that several components call.
use Prim.Native.Nat.{◌-◌}
use mathlib.Core.Bool.{Bool, true, false, ◌&&◌}
use mathlib.Core.List.{[], ◌∷◌, ◌++◌}
use gprovision.Prelude.Lists.{length, take, drop}
use gprovision.Prelude.Tests.{◌==◌, if◌then◌else◌}
use gprovision.Prelude.Words.{Bytes}

-- `strings.HasPrefix`
unfoldable pub has_prefix : Bytes → Bytes → Bool
has_prefix s [] = true
has_prefix [] (p ∷ ps) = false
has_prefix (b ∷ s) (p ∷ ps) = let rest = has_prefix s ps in (b == p) && rest

-- `strings.TrimPrefix`
unfoldable pub trim_prefix : Bytes → Bytes → Bytes
trim_prefix s p = if has_prefix s p then drop (length p) s else s

-- `strings.HasSuffix`: some rest of the string is the suffix.
unfoldable pub has_suffix : Bytes → Bytes → Bool
has_suffix s p =
    has_prefix (drop (length s - length p) s) p
    && (length (drop (length s - length p) s) == length p)

-- `strings.TrimSuffix`
unfoldable pub trim_suffix : Bytes → Bytes → Bytes
trim_suffix s p = if has_suffix s p then take (length s - length p) s else s

-- `strings.Replace(s, old, new, 1)` with a string `old` that is not empty.
unfoldable pub replace_first : Bytes → Bytes → Bytes → Bytes
replace_first [] old new = []
replace_first (b ∷ s) old new =
    let rest = replace_first s old new in
    if has_prefix (b ∷ s) old then new ++ drop (length old) (b ∷ s) else b ∷ rest

-- `path.Base` of a path that does not end in a slash: what follows the last slash.
unfoldable pub base : Bytes → Bytes
base [] = []
base (b ∷ s) = let rest = base s in if b == b'/' then rest else if has_slash s then rest else b ∷ s
  where
    has_slash : Bytes → Bool
    has_slash [] = false
    has_slash (c ∷ t) = if c == b'/' then true else has_slash t
