-- ===== src/Log/Entries.antt =====
-- pkg/log/flags/flags.go, and `AddEntry` and `Finalize` of the loggers in mem.go, console.go,
-- file.go and lcd/lcd.go.
pub mod Delivery
use gprovision.Prelude.{
  Bool, Bytes, List, [], bit_and, false, if◌then◌else◌, ltb, not, true, ℕ, ◌&&◌, ◌++◌, ◌==◌, ◌||◌,
  ◌∷◌,
}

-- flags.EndUser and so on
abbrev pub end_user : ℕ
end_user = 1

abbrev pub fatal : ℕ
fatal = 2

abbrev pub not_file : ℕ
not_file = 4

-- A log entry. The text stands for `Msg` with its arguments and time, which nothing here reads.
pub record LogEntry : Type 0 where
  pub flags : ℕ
  pub msg : Bytes

pub data Kind : Type 0 where
  mem_log : Kind
  console_log : Kind
  file_log : Kind
  lcd_log : Kind

-- What `Ident` returns, as a number in place of a string.
unfoldable pub ident : Kind → ℕ
ident mem_log = 0
ident console_log = 1
ident file_log = 2
ident lcd_log = 3

-- The `f` of a fileLog: nil, open, or closed by someone else.
pub data Handle : Type 0 where
  no_file : Handle
  open_file : Handle
  closed_file : Handle

-- One logger of any kind. `out` is what it keeps or has put out; for a file, what `f` has received.
pub record Logger : Type 0 where
  pub kind : Kind
  pub opts : ℕ
  pub file : Handle
  pub out : List LogEntry

abbrev pub is_open : Handle → Bool
is_open no_file = false
is_open open_file = true
is_open closed_file = false

-- Whether `AddEntry` puts the entry out.
unfoldable pub accepts : Logger → LogEntry → Bool
accepts l e = accepts_as l.kind
  where
    accepts_as : Kind → Bool
    accepts_as mem_log = true
    accepts_as console_log = (l.opts == 0) || ltb 0 (bit_and e.flags l.opts)
    accepts_as file_log = (bit_and e.flags not_file == 0) && is_open l.file
    accepts_as lcd_log = not (bit_and e.flags l.opts == 0)

-- The part of `AddEntry` before it calls the next logger.
unfoldable pub deliver : LogEntry → Logger → Logger
deliver e l = if accepts l e then record l { out = l.out ++ e ∷ [] } else l

-- `AddEntry` of the top logger.
unfoldable pub add_entry : List Logger → LogEntry → List Logger
add_entry [] e = []
add_entry (l ∷ ls) e = deliver e l ∷ add_entry ls e

-- A logger's own part of `Finalize`; the file is closed and a memLog's entries are dropped.
unfoldable pub finalize_one : Logger → Logger
finalize_one l = finalize_as l.kind
  where
    finalize_as : Kind → Logger
    finalize_as mem_log = record l { out = [] }
    finalize_as console_log = l
    finalize_as file_log = record l { file = no_file }
    finalize_as lcd_log = l

unfoldable pub finalize : List Logger → List Logger
finalize [] = []
finalize (l ∷ ls) = finalize_one l ∷ finalize ls
