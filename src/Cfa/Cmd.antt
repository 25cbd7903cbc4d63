-- ===== src/Cfa/Cmd.antt =====
-- pkg/hw/cfa/command.go: the constants Cmd_*, in the order of the source.
use gprovision.Prelude.{ℕ}

abbrev pub ping : ℕ
ping = 0x00

abbrev pub hw_fw_vers : ℕ
hw_fw_vers = 0x01

abbrev pub read_user_flash : ℕ
read_user_flash = 0x03

abbrev pub reboot : ℕ
reboot = 0x05

abbrev pub clear : ℕ
clear = 0x06

abbrev pub set_cursor_pos : ℕ
set_cursor_pos = 0x0b

abbrev pub set_cursor_style : ℕ
set_cursor_style = 0x0c

abbrev pub set_backlight : ℕ
set_backlight = 0x0e

abbrev pub cfg_key_reports : ℕ
cfg_key_reports = 0x17

abbrev pub read_keys_polled : ℕ
read_keys_polled = 0x18

abbrev pub read_reprt_stat : ℕ
read_reprt_stat = 0x1e

abbrev pub write_disp : ℕ
write_disp = 0x1f

abbrev pub key_legend_on_off_mask : ℕ
key_legend_on_off_mask = 0x20
