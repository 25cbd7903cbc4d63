-- ===== src/Boot/Tasks.antt =====
-- pkg/init/housekeeping/hk.go: the tasks before a reboot.
pub mod Order
use mathlib.Core.List.{filter}
use gprovision.Prelude.{Bool, Bytes, List, [], codes, equal, if◌then◌else◌, not, ◌++◌, ◌||◌, ◌∷◌}

module _ (World : Type 0) where
  -- A task does something to the machine; it is told whether all went well.
  pub record HkTask : Type 0 where
    pub name : Bytes
    pub func : Bool → World → World

  unfoldable pub filter_tasks : (HkTask → Bool) → List HkTask → List HkTask
  filter_tasks filter [] = []
  filter_tasks filter (t ∷ tasks) =
      let out = filter_tasks filter tasks in if filter t then t ∷ out else out

  unfoldable pub filter_out : (HkTask → Bool) → List HkTask → List HkTask
  filter_out filter tasks = filter_tasks (λ t. not (filter t)) tasks

  -- `Perform`: the last task first, until the list is empty. A task does not change the list.
  unfoldable pub perform : Bool → List HkTask → World → World
  perform success [] w = w
  perform success (t ∷ tasks) w = t.func success (perform success tasks w)

  unfoldable pub add : HkTask → List HkTask → List HkTask
  add t tasks = tasks ++ t ∷ []

  unfoldable pub add_first : HkTask → List HkTask → List HkTask
  add_first t tasks = t ∷ tasks

  abbrev is_default : HkTask → Bool
  is_default t =
      equal t.name (codes "umount")
      || equal t.name (codes "sync")
      || equal t.name (codes "log.Finish")
      || equal t.name (codes "lcd")

  unfoldable pub remove_preboot_defaults : List HkTask → List HkTask
  remove_preboot_defaults preboots = filter_out is_default preboots

  -- What the default tasks do.
  pub record Defaults : Type 0 where
    pub log_finalize : World → World
    pub umount : Bool → World → World
    pub sync : World → World
    pub close_lcd : World → World

  abbrev pub task : Bytes → (Bool → World → World) → HkTask
  task name func = record { name = name; func = func }

  -- `AddPrebootDefaults`
  unfoldable pub add_preboot_defaults : Defaults → List HkTask → List HkTask
  add_preboot_defaults d preboots = add_first (task (codes "lcd") (λ success w. d.close_lcd w)) (
      add_first (task (codes "sync") (λ success w. d.sync w)) (
        add_first (task (codes "umount") d.umount) (
          add_first (task (codes "log.Finalize") (λ success w. d.log_finalize w))
            (remove_preboot_defaults preboots))))
