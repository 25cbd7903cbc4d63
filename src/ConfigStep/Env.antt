-- ===== src/ConfigStep/Env.antt =====
-- `addEnv`: an environment as a table of variables.
use gprovision.Prelude.{
  Bytes, List, Option, [], codes, cut, equal, if◌then◌else◌, none, some, ◌++◌, ◌∷◌,
}

-- The value of a variable: its first entry counts.
unfoldable pub get_env : Bytes → List Bytes → Option Bytes
get_env k [] = none
get_env k (e ∷ env) =
    let later = get_env k env in
    elim (cut b'=' e) [ none ↦ later | some (j, v) ↦ if equal j k then some v else later ]

-- The new value: before the old one, if there is one.
abbrev pub extended : Bytes → Option Bytes → Bytes
extended val none = val
extended val (some old) = val ++ codes ":" ++ old
