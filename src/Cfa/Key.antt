-- ===== src/Cfa/Key.antt =====
-- pkg/hw/cfa/buttons.go: the KEY_* codes, numbered as by iota. A key activity is a byte.
use gprovision.Prelude.{ℕ}

abbrev pub no_key : ℕ
no_key = 0

abbrev pub up_press : ℕ
up_press = 1

abbrev pub down_press : ℕ
down_press = 2

abbrev pub left_press : ℕ
left_press = 3

abbrev pub right_press : ℕ
right_press = 4

abbrev pub enter_press : ℕ
enter_press = 5

abbrev pub exit_press : ℕ
exit_press = 6

abbrev pub up_release : ℕ
up_release = 7

abbrev pub down_release : ℕ
down_release = 8

abbrev pub left_release : ℕ
left_release = 9

abbrev pub right_release : ℕ
right_release = 10

abbrev pub enter_release : ℕ
enter_release = 11

abbrev pub exit_release : ℕ
exit_release = 12

abbrev pub ul_press : ℕ
ul_press = 13

abbrev pub ur_press : ℕ
ur_press = 14

abbrev pub ll_press : ℕ
ll_press = 15

abbrev pub lr_press : ℕ
lr_press = 16

abbrev pub ul_release : ℕ
ul_release = 17

abbrev pub ur_release : ℕ
ur_release = 18

abbrev pub ll_release : ℕ
ll_release = 19

abbrev pub lr_release : ℕ
lr_release = 20
