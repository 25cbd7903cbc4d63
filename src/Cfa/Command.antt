-- ===== src/Cfa/Command.antt =====
-- pkg/hw/cfa/command.go: command bytes. The two top bits are the packet's type (packet.go).
pub mod Laws
use gprovision.Prelude.{
  Bytes, [], bit_and, codes, if◌then◌else◌, leb, ltb, ℕ, ◌%◌, ◌++◌, ◌+◌, ◌/◌, ◌==◌, ◌∷◌,
}
use gprovision.Cfa.Cmd

pub data PktType : Type 0 where
  cf_command cf_response cf_report cf_error : PktType

-- `Type`: the top two bits of the byte.
unfoldable pub pkt_type : ℕ → PktType
pkt_type c =
    let t = c / 64 in
    if t == 0
    then cf_command
    else if t == 1
    then cf_response
    else if t == 2
    then cf_report
    else cf_error

abbrev pub cmd_mask : ℕ
cmd_mask = 0x3f

unfoldable pub command_from_response : ℕ → ℕ
command_from_response c = bit_and c cmd_mask

abbrev pub report_key : ℕ
report_key = 0x80

-- One digit of "%02x".
abbrev hex_digit : ℕ → ℕ
hex_digit d = if ltb d 10 then b'0' + d else b'a' + d % 10

abbrev hex_byte : ℕ → Bytes
hex_byte c = hex_digit (c / 16) ∷ hex_digit (c % 16) ∷ []

-- The prefix, and the code that the second switch of `String` sees.
prefix : ℕ → Bytes × ℕ
unfolding command_from_response
prefix c =
    if leb 0xC0 c
    then (codes "ERR_", command_from_response c)
    else if leb 0x80 c
    then (codes "RPT_", c)
    else if leb 0x40 c
    then (codes "OK__", command_from_response c)
    else (codes "CMD_", c)

-- The second switch; `original` is the unmasked code.
name : ℕ → ℕ → Bytes
name original c =
    if c == Cmd.ping
    then codes "Ping"
    else if c == Cmd.hw_fw_vers
    then codes "HwFwVers"
    else if c == Cmd.read_user_flash
    then codes "ReadUserFlash"
    else if c == Cmd.reboot
    then codes "Reboot"
    else if c == Cmd.clear
    then codes "Clear"
    else if c == Cmd.set_cursor_pos
    then codes "SetCursorPos"
    else if c == Cmd.set_cursor_style
    then codes "SetCursorStyle"
    else if c == Cmd.set_backlight
    then codes "SetBacklight"
    else if c == Cmd.cfg_key_reports
    then codes "CfgKeyReports"
    else if c == Cmd.read_keys_polled
    then codes "ReadKeys"
    else if c == Cmd.read_reprt_stat
    then codes "ReadReportingAndStatus"
    else if c == Cmd.write_disp
    then codes "Write"
    else if c == Cmd.key_legend_on_off_mask
    then codes "SetKeyLegend"
    else codes "UNKNOWN_0x" ++ hex_byte original

-- `String`
unfoldable pub to_string : ℕ → Bytes
unfolding prefix name
to_string c =
    let (pfx, low) = prefix c in
    if c == report_key then codes "RPT_KeyActivity" else pfx ++ name c low
