-- ===== src/Log/Files.antt =====
-- pkg/log/attr.go, `NewLogStack` of stackable.go and `AddNamedFileLog` of file.go.
pub mod Failure
use gprovision.Log.Entries.{Kind, Logger, closed_file, file_log, finalize, open_file}
use gprovision.Log.Stack.{add_logger}
use gprovision.Prelude.{
  Bool, Bytes, List, Option, [], codes, equal, if◌then◌else◌, none, some, true, ◌∷◌,
}

-- `logStack` and `attrs`, whose values are strings here.
pub record LogState : Type 0 where
  pub stack : List Logger
  pub attrs : List (Bytes × Bytes)

-- `GetAttr`
unfoldable pub get_attr : Bytes → List (Bytes × Bytes) → Option Bytes
get_attr key [] = none
get_attr key ((k, v) ∷ rest) =
    let later = get_attr key rest in if equal k key then some v else later

-- `SetAttr`; `none` is EAttrExists.
unfoldable pub set_attr : Bytes → Bytes → List (Bytes × Bytes) → Option (List (Bytes × Bytes))
set_attr key val attrs = elim (get_attr key attrs) [
  | some v ↦ none
  | none ↦ some ((key, val) ∷ attrs)
]

-- `NewLogStack`: what becomes of the old loggers, and the new state.
unfoldable pub new_log_stack : Logger → LogState → List Logger × LogState
new_log_stack new s = (finalize s.stack, record { stack = new ∷ []; attrs = [] })

-- "Filename"
abbrev pub filename : Bytes
filename = codes "Filename"

pub data FileError : Type 0 where
  not_created : FileError
  duplicate : Kind → FileError
  attr_exists : FileError

abbrev pub new_file_log : Logger
new_file_log = record { kind = file_log; opts = 0; file = open_file; out = [] }

-- `f.Close()` on the error path of `AddNamedFileLog`, seen by the logger that holds `f`.
unfoldable pub close_top : List Logger → List Logger
close_top [] = []
close_top (l ∷ ls) = record l { file = closed_file } ∷ ls

-- The end of `AddNamedFileLog` once `AddLogger` has answered.
unfoldable pub name_file :
    Bytes → Option Kind × List Logger → List (Bytes × Bytes) → Option FileError × LogState
name_file fname (some k, st) attrs = (some (duplicate k), record { stack = st; attrs = attrs })
name_file fname (none, st) attrs = elim (set_attr filename fname attrs) [
  | none ↦ (some attr_exists, record { stack = close_top st; attrs = attrs })
  | some new ↦ (none, record { stack = st; attrs = new })
]

-- `AddNamedFileLog`; `created` is whether `os.Create` succeeds.
unfoldable pub add_named_file_log : Bool → Bytes → LogState → Option FileError × LogState
add_named_file_log created fname s =
    if created
    then name_file fname (add_logger new_file_log true s.stack) s.attrs
    else (some not_created, s)
