-- ===== src/ConfigStep/Runs.antt =====
-- What ran when the steps of a time succeed.
use gprovision.ConfigStep.{
  ExitStatus, Machine, Step, StepCmd, WhenType, dont_care, get_files, must_fail, must_succeed,
  same_when,
}
use gprovision.Prelude.{Bool, Bytes, List, Option, [], false, length, some, true, ◌∷◌, ◌≡◌}

-- What an exit status wants of the command.
abbrev pub Expected : ExitStatus → Bool → Type 0
Expected must_succeed success = success ≡ true
Expected dont_care success = Unit
Expected must_fail success = success ≡ false

-- A command ran, and ended as its exit status wants it.
pub data CmdRun {World : Type 0} (m : Machine World) (c : StepCmd) (w w' : World) : Type 0 where
  ran :
      (out a : Bytes) (args : List Bytes) (env : Option (List Bytes)) (success : Bool)
      → m.apply_tmpl c.command ≡ some out
      → m.shlex_split out ≡ some (a ∷ args)
      → m.exec (a ∷ args) env w ≡ (w', success)
      → Expected c.exit_status success
      → CmdRun m c w w'

-- The commands ran one after another.
pub data Run {World : Type 0} (m : Machine World) : World → List StepCmd → World → Type 0 where
  none_left : {w : World} → Run m w [] w
  one_more :
      {c : StepCmd} {cs : List StepCmd} {w w1 w2 : World}
      → CmdRun m c w w1
      → Run m w1 cs w2
      → Run m w (c ∷ cs) w2

-- A step ran: its files were fetched, if it has any, and then its commands ran.
pub data StepRun {World : Type 0} (m : Machine World) (s : Step) (w w' : World) : Type 0 where
  no_files : length s.files ≡ 0 → Run m w s.commands w' → StepRun m s w w'
  with_files :
      (w1 w2 w3 : World)
      → m.temp_dir s.name w ≡ (w1, true)
      → get_files m s.files w1 ≡ (w2, true)
      → Run m w2 s.commands w3
      → m.remove_all w3 ≡ w'
      → StepRun m s w w'

-- The steps of a time ran in order, and no others.
pub data Applied {World : Type 0} (m : Machine World) (now : WhenType)
    : World → List Step → World → Type 0 where
  no_step : {w : World} → Applied m now w [] w
  other_time :
      {s : Step} {ss : List Step} {w w' : World}
      → same_when s.at now ≡ false
      → Applied m now w ss w'
      → Applied m now w (s ∷ ss) w'
  this_time :
      {s : Step} {ss : List Step} {w w1 w' : World}
      → same_when s.at now ≡ true
      → StepRun m s w w1
      → Applied m now w1 ss w'
      → Applied m now w (s ∷ ss) w'
