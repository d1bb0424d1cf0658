-- ===== src/Utils/Trace.antt =====
-- `show_trace`, `append_log` and `close_log` of utils/debug.c.
pub mod Reopened
use bspd.Common.{
  ℕ, zero, suc, ◌/◌, ◌%◌, ◌^◌, Bool, true, false, Option, none, some, List, [], ◌∷◌, ◌++◌, ◌==◌,
  ltb, if◌then◌else◌, Bytes, codes,
}

-- A `BSP_TRACE`: its level as the pattern of an `int`, its time as `strftime` writes it, its tag and
-- its message.
pub record Trace : Type 0 where
  pub level : ℕ
  pub time : Bytes
  pub tag : Bytes
  pub msg : Bytes

-- The loop that shifts the level until a bit is set; an `int` has at most 31 bits to shift.
unfoldable pub level_loop : ℕ → ℕ → ℕ → ℕ
level_loop zero level idx = idx
level_loop (suc fuel) level idx =
    let rest = level_loop fuel (level / 2) (suc idx) in
    if level == 0 then idx else if level % 2 == 1 then idx else rest

-- A negative level does not enter the loop.
unfoldable pub level_index : ℕ → ℕ
level_index level = if ltb level (2 ^ 31) then level_loop 31 level 0 else 0

unfoldable pub name_at : List Bytes → ℕ → Option Bytes
name_at [] i = none
name_at (x ∷ xs) zero = some x
name_at (x ∷ xs) (suc i) = name_at xs i

abbrev pub newline : Bytes
newline = 10 ∷ []

-- The tables `lstr`, in which the names of the trace are coloured.
abbrev pub log_names : List Bytes
log_names =
    codes " ERERG"
    ∷ codes " ALERT"
    ∷ codes "  CRIT"
    ∷ codes "   ERR"
    ∷ codes "  WARN"
    ∷ codes "NOTICE"
    ∷ codes "  INFO"
    ∷ codes " DEBUG"
    ∷ []

abbrev colored : Bytes → Bytes → Bytes
colored color s = 27 ∷ codes "[" ++ color ++ codes "m" ++ s ++ 27 ∷ codes "[0m"

abbrev pub trace_names : List Bytes
trace_names =
    colored (codes "1;30") (codes " EMERG")
    ∷ colored (codes "1;31") (codes " ALERT")
    ∷ colored (codes "0;33") (codes "  CRIT")
    ∷ colored (codes "0;31") (codes "   ERR")
    ∷ colored (codes "0;34") (codes "  WARN")
    ∷ colored (codes "1;33") (codes "NOTICE")
    ∷ colored (codes "1;32") (codes "  INFO")
    ∷ colored (codes "1;34") (codes " DEBUG")
    ∷ []

unfoldable pub trace_line : Bytes → Trace → Bytes
trace_line name t =
    colored (codes "1;37") (codes "[")
    ++ colored (codes "0;36") t.time
    ++ colored (codes "1;37") (codes "]")
    ++ colored (codes "1;37") (codes "[")
    ++ name
    ++ colored (codes "1;37") (codes "]")
    ++ codes " - "
    ++ colored (codes "1;37") (codes "[")
    ++ colored (codes "1;35") t.tag
    ++ colored (codes "1;37") (codes "]")
    ++ codes " : "
    ++ t.msg
    ++ newline

-- The text with the name, if there is one.
unfoldable pub with_name : (Bytes → Trace → Bytes) → Trace → Option Bytes → Option Bytes
with_name line t none = none
with_name line t (some name) = some (line name t)

-- What is written to the terminal; `none` is a read behind the table.
unfoldable pub show_trace : Trace → Option Bytes
unfolding with_name
show_trace t = with_name trace_line t (name_at trace_names (level_index t.level))

-- The file that is logged to: whether `log_fp` is open, and what the file holds.
pub record LogFile : Type 0 where
  pub is_open : Bool
  pub content : Bytes

unfoldable pub log_line : Bytes → Trace → Bytes
log_line name t =
    codes "["
    ++ t.time
    ++ codes "]["
    ++ name
    ++ codes "]-["
    ++ t.tag
    ++ codes "] : "
    ++ t.msg
    ++ newline

-- `fopen` with "w+" empties the file; the flag is whether it can be opened.
unfoldable pub open_log : Bool → LogFile → LogFile
open_log can_open f =
    if f.is_open then f else if can_open then record { is_open = true; content = [] } else f

unfoldable pub write_log : Bytes → LogFile → LogFile
write_log line f = if f.is_open then record f { content = f.content ++ line } else f

-- The name is read only if the file is open.
unfoldable pub append_named : LogFile → Option Bytes → Option LogFile
unfolding write_log
append_named f none = if f.is_open then none else some f
append_named f (some line) = some (write_log line f)

unfoldable pub append_log : Bool → Trace → LogFile → Option LogFile
unfolding open_log append_named
append_log can_open t f =
    append_named (open_log can_open f)
      (with_name log_line t (name_at log_names (level_index t.level)))

unfoldable pub close_log : LogFile → LogFile
close_log f = record f { is_open = false }

-- `_callback_reopen_log` of server/main.c, for the signal HUP.
unfoldable pub callback_reopen_log : LogFile → LogFile
unfolding close_log
callback_reopen_log f = close_log f
