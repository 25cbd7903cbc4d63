-- ===== src/Boot/Mode.antt =====
-- pkg/init/normal.go: data erase, normal boot, the boot menu and factory restore.
pub mod Safe
use gprovision.Cfa.Confirm.{Answer, answer_na, answer_yes}
use gprovision.Cfa.View.{Choice, choice_cancel, choice_none, item}
use gprovision.Prelude.{
  Bool, Bytes, List, [], equal, false, if◌then◌else◌, length, not, true, ◌++◌, ◌==◌, ◌∷◌,
}

-- What the machine does. `reboot` is told whether all went well.
pub data Action : Type 0 where
  erase : Action
  switch_root : Action
  power_off : Action
  restore_defaults restore_oldest restore_menu : Action
  restore_files : List Bytes → Action
  reboot : Bool → Action

-- How a run ends: an action did not return; the code returned; or it waits for the user.
pub data Ending : Type 0 where
  ended returned waiting : Ending

abbrev pub Run : Type 0
Run = List Action × Ending

-- A choice from the boot menu, the answer to the second question about a data erase, and whether
-- what is done then ends the run.
pub record Turn : Type 0 where
  pub choice : Choice
  pub answer : Answer
  pub reconfirm : Answer
  pub ends : Bool

abbrev is_yes : Answer → Bool
is_yes answer_yes = true
is_yes a = false

abbrev is_na : Answer → Bool
is_na answer_na = true
is_na a = false

-- An action, and what follows if it returns.
abbrev pub then_run : Bool → Action → Run → Run
then_run true a rest = (a ∷ [], ended)
then_run false a rest = (a ∷ rest.0, rest.1)

abbrev no_more : Run
no_more = ([], returned)

-- A round of the loop of `bootMenu`, with the rest of the loop. The items are: 0 resume, 1 power
-- off, 3 to 5 factory restore to the latest, the original or a chosen image, 7 data erase; 2 and 6
-- are blank lines.
unfoldable pub menu_turn : Choice → Turn → Run → Run
menu_turn choice_none t again = then_run t.ends switch_root no_more
menu_turn choice_cancel t again = then_run t.ends switch_root no_more
menu_turn (item n) t again =
    let next = if is_na t.answer then again else no_more in
    if n == 0
    then then_run t.ends switch_root no_more
    else if n == 1
    then then_run t.ends power_off next
    else if n == 3
    then then_run t.ends restore_defaults next
    else if n == 4
    then then_run t.ends restore_oldest next
    else if n == 5
    then then_run t.ends restore_menu again
    else if n == 7
    then (if is_yes t.reconfirm then then_run t.ends erase next else again)
    else then_run t.ends switch_root next

unfoldable pub boot_menu : List Turn → Run
boot_menu [] = ([], waiting)
boot_menu (t ∷ ts) = menu_turn t.choice t (boot_menu ts)

-- What the machine meets: the environment, what `waitSearch` finds, the user's choices, whether
-- it is the init process, and which actions outside of the menu do not return.
pub record Boot : Type 0 where
  pub erase_env : Bytes
  pub real_root : Bytes
  pub pressed : Bool
  pub emergency_files : List Bytes
  pub found_root : Bool
  pub turns : List Turn
  pub is_init : Bool
  pub ends : Action → Bool

unfoldable pub try_normal_boot : Boot → Run
try_normal_boot b =
    if b.pressed
    then boot_menu b.turns
    else if not (length b.emergency_files == 0)
    then then_run (b.ends (restore_files b.emergency_files)) (restore_files b.emergency_files)
        (then_run (b.ends (reboot true)) (reboot true) no_more)
    else if b.found_root
    then then_run (b.ends switch_root) switch_root no_more
    else no_more

-- The end of `stage2`.
unfoldable pub recover : Boot → Run
recover b =
    then_run (b.ends restore_defaults) restore_defaults
      (then_run (b.ends (reboot false)) (reboot false) no_more)

-- What follows if a run returns.
abbrev pub and_then : Run → Run → Run
and_then (as', returned) rest = (as' ++ rest.0, rest.1)
and_then (as', ended) rest = (as', ended)
and_then (as', waiting) rest = (as', waiting)

unfoldable pub stage2 : Boot → Run
stage2 b =
    if not (equal b.erase_env [])
    then then_run (b.ends erase) erase (then_run (b.ends (reboot true)) (reboot true) (recover b))
    else if not (equal b.real_root [])
    then and_then (try_normal_boot b) (if b.is_init then recover b else no_more)
    else recover b
