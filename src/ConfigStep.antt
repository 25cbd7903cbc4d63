-- ===== src/ConfigStep.antt =====
-- pkg/mfg/configStep/step.go: steps of the manufacturing process that are given as data.
pub mod Env
pub mod Names
pub mod Runs
use gprovision.Prelude.{
  Bool, Bytes, List, Option, [], codes, cut, equal, false, has_suffix, if◌then◌else◌, is_space,
  length, ltb, map, none, not, some, take, to_lower, trim_byte, true, ℕ, ◌++◌, ◌==◌, ◌||◌, ◌∷◌,
}

pub data WhenType : Type 0 where
  before_qa after_qa before_imaging after_imaging : WhenType
  before_mfg after_mfg before_pw_set after_pw_set : WhenType

pub data ExitStatus : Type 0 where
  must_succeed dont_care must_fail : ExitStatus

abbrev any_of : Bytes → Bytes → Bytes → Bool
any_of s a b = equal s a || equal s b

-- `WhenType.UnmarshalJSON`
unfoldable pub parse_when : Bytes → Option WhenType
parse_when b =
    let s = to_lower (trim_byte b'"' b) in
    if any_of s (codes "beforeqa") (codes "runbeforeqa")
    then some before_qa
    else if any_of s (codes "afterqa") (codes "runafterqa")
    then some after_qa
    else if any_of s (codes "beforeimaging") (codes "runbeforeimaging")
    then some before_imaging
    else if any_of s (codes "afterimaging") (codes "runafterimaging")
    then some after_imaging
    else if any_of s (codes "beforemfg") (codes "runbeforemfg")
    then some before_mfg
    else if any_of s (codes "aftermfg") (codes "runaftermfg")
    then some after_mfg
    else if any_of s (codes "beforepwset") (codes "runbeforepwset")
    then some before_pw_set
    else if any_of s (codes "afterpwset") (codes "runafterpwset")
    then some after_pw_set
    else none

-- `ExitStatus.UnmarshalJSON`
unfoldable pub parse_exit_status : Bytes → Option ExitStatus
parse_exit_status b =
    let s = to_lower (trim_byte b'"' b) in
    if any_of s (codes "mustsucceed") (codes "esmustsucceed")
    then some must_succeed
    else if any_of s (codes "dontcare") (codes "esdontcare")
    then some dont_care
    else if any_of s (codes "mustfail") (codes "esmustfail")
    then some must_fail
    else none

pub record StepCmd : Type 0 where
  pub exit_status : ExitStatus
  pub command : Bytes
  pub add_path : Bytes
  pub add_lib_path : Bytes

pub record Step : Type 0 where
  pub name : Bytes
  pub at : WhenType  -- `When`
  pub files : List Bytes
  pub commands : List StepCmd

unfoldable pub same_when : WhenType → WhenType → Bool
same_when before_qa before_qa = true
same_when after_qa after_qa = true
same_when before_imaging before_imaging = true
same_when after_imaging after_imaging = true
same_when before_mfg before_mfg = true
same_when after_mfg after_mfg = true
same_when before_pw_set before_pw_set = true
same_when after_pw_set after_pw_set = true
same_when a b = false

-- `PlatformConfigs.Find`
unfoldable pub find_config : Bytes → List (Bytes × List Step) → List Step
find_config code_name [] = []
find_config code_name ((dev_code_name, steps) ∷ cfgs) =
    let later = find_config code_name cfgs in if equal dev_code_name code_name then steps else later

-- `addEnv`; `none` for an environment that is nil. The flag `prepend` is not read.
unfoldable pub set_env : Bytes → Bytes → List Bytes → List Bytes
set_env vname val [] = (vname ++ codes "=" ++ val) ∷ []
set_env vname val (e ∷ env) =
    let later = set_env vname val env in
    elim (cut b'=' e) [
      | none ↦ e ∷ later
      | some (k, v) ↦
          if equal k vname then (vname ++ codes "=" ++ (val ++ codes ":" ++ v)) ∷ env else e ∷ later
    ]

unfoldable pub add_env : Bytes → Bytes → Option (List Bytes) → List Bytes
add_env vname val none = (vname ++ codes "=" ++ val) ∷ []
add_env vname val (some env) = set_env vname val env

abbrev is_unsafe : ℕ → Bool
is_unsafe b = b == b'*' || b == b'?' || b == b':' || b == b'\\' || b == b'/'

-- The function that `makeFsSafeName` maps over a name, which is ASCII.
unfoldable pub safe_byte : ℕ → ℕ
safe_byte b =
    if ltb b b'#' || ltb b'z' b || is_space b then b'_' else if is_unsafe b then b'_' else b

-- `makeFsSafeName`
unfoldable pub make_fs_safe_name : Bytes → Bytes
make_fs_safe_name name = map safe_byte (if ltb 20 (length name) then take 20 name else name)

-- What `runCmd` and `Run` end with. A command of no words panics, since its first word is taken.
pub data Outcome : Type 0 where
  done : Outcome
  e_exec_success e_exec_fail e_other : Outcome
  panicked : Outcome

-- The rest of the machine: templates, the splitting of a line into words, commands, downloads.
pub record Machine (World : Type 0) : Type 0 where
  pub apply_tmpl : Bytes → Option Bytes
  pub shlex_split : Bytes → Option (List Bytes)
  -- The command with its environment, and whether it succeeds.
  pub exec : List Bytes → Option (List Bytes) → World → World × Bool
  -- `GetWithRetry`, and the extraction of an archive.
  pub get_file : Bytes → World → World × Bool
  pub extract : Bytes → World → World × Bool
  pub temp_dir : Bytes → World → World × Bool
  -- `RemoveAll` of the temporary directory, when `Run` ends.
  pub remove_all : World → World

module _ {World : Type 0} (m : Machine World) where
  -- The part of `runCmd` that adds a variable if its field is given.
  abbrev env_with : Bytes → Bytes → Option (List Bytes) → Option (Option (List Bytes))
  env_with vname field env =
      if equal field []
      then some env
      else elim (m.apply_tmpl field) [ none ↦ none | some p ↦ some (some (add_env vname p env)) ]

  -- The end of `runCmd`.
  unfoldable pub exit_outcome : ExitStatus → Bool → Outcome
  exit_outcome must_succeed true = done
  exit_outcome must_succeed false = e_exec_fail
  exit_outcome dont_care success = done
  exit_outcome must_fail true = e_exec_success
  exit_outcome must_fail false = done

  unfoldable pub exec_words : StepCmd → List Bytes → World → World × Outcome
  exec_words c [] w = (w, panicked)
  exec_words c (a ∷ args) w = elim (env_with (codes "PATH") c.add_path none) [
    | none ↦ (w, e_other)
    | some env ↦ elim (env_with (codes "LD_LIBRARY_PATH") c.add_lib_path env) [
      | none ↦ (w, e_other)
      | some env' ↦
          let (w', success) = m.exec (a ∷ args) env' w in (w', exit_outcome c.exit_status success)
    ]
  ]

  -- `runCmd`
  unfoldable pub run_cmd : StepCmd → World → World × Outcome
  run_cmd c w = elim (m.apply_tmpl c.command) [
    | none ↦ (w, e_other)
    | some out ↦ elim (m.shlex_split out) [ none ↦ (w, e_other) | some args ↦ exec_words c args w ]
  ]

  abbrev is_done : Outcome → Bool
  is_done done = true
  is_done o = false

  -- The loop over the commands of `Run`.
  unfoldable pub run_cmds : List StepCmd → World → World × Outcome
  run_cmds [] w = (w, done)
  run_cmds (c ∷ cs) w =
      let (w', o) = run_cmd c w in
      let later = run_cmds cs w' in if is_done o then later else (w', o)

  abbrev is_archive : Bytes → Bool
  is_archive dest = has_suffix dest (codes ".txz") || has_suffix dest (codes ".tar.xz")

  -- The loop over the files of `Run`.
  unfoldable pub get_files : List Bytes → World → World × Bool
  get_files [] w = (w, true)
  get_files (f ∷ fs) w =
      let (w1, got) = m.get_file f w in
      let (w2, extracted) = if is_archive f then m.extract f w1 else (w1, true) in
      let later = get_files fs w2 in
      if not got then (w1, false) else if not extracted then (w2, false) else later

  -- `Run`
  unfoldable pub run_step : Step → World → World × Outcome
  run_step s w =
      let (w1, made) = m.temp_dir s.name w in
      let (w2, got) = get_files s.files w1 in
      if length s.files == 0
      then run_cmds s.commands w
      else if not made
      then (w1, e_other)
      else if not got
      then (m.remove_all w2, e_other)
      else let (w3, o) = run_cmds s.commands w2 in (m.remove_all w3, o)

  -- `RunApplicable`
  unfoldable pub run_applicable : WhenType → List Step → World → World × Outcome
  run_applicable now [] w = (w, done)
  run_applicable now (s ∷ ss) w =
      let (w', o) = if same_when s.at now then run_step s w else (w, done) in
      let later = run_applicable now ss w' in if is_done o then later else (w', o)
