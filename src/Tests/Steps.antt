-- ===== src/Tests/Steps.antt =====
-- Steps of the configuration at concrete inputs.
use gprovision.ConfigStep.{Machine, Step, after_qa, must_succeed}
use gprovision.Prelude.{Bytes, List, [], codes, some, true, ◌∷◌}

-- A machine on which every command succeeds and is recorded.
abbrev recorder : Machine (List Bytes)
recorder = record {
  apply_tmpl = λ s. some s;
  shlex_split = λ s. some (s ∷ []);
  exec = λ words env w. (codes "exec" ∷ w, true);
  get_file = λ f w. (f ∷ w, true);
  extract = λ f w. (w, true);
  temp_dir = λ s w. (w, true);
  remove_all = λ w. w;
}

abbrev one_step : Step
one_step = record {
  name = codes "s";
  at = after_qa;
  files = [];
  commands =
      record { exit_status = must_succeed; command = codes "ls"; add_path = []; add_lib_path = [] }
      ∷ [];
}

abbrev some_env : List Bytes
some_env = codes "HOME=/root" ∷ codes "PATH=/bin" ∷ []
