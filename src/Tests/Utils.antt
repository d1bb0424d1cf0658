-- ===== src/Tests/Utils.antt =====
-- Runs of utils/debug.c, wrapper/misc.c and the timers of wrapper/standard.c.
use bspd.Common.{
  lt→ltb, ltb, ℕ, ◌-◌, ◌*◌, ◌/◌, ◌<◌, ◌≤◌, ◌≡◌, refl, ap, true, some, [], ◌∷◌, ◌++◌, Bytes, codes,
  length, drop, arith, pos, ℤ,
}
use bspd.Json.Value.{Object, array, nil}
use bspd.Script.Lua.{Lua, t_nil, t_boolean, t_string, t_table, t_light_userdata, new_table, entry}
use bspd.Script.Push.{object_to_lua}
use bspd.Script.Push.Balance.{settled_object, lua_of_object}
use bspd.Script.Read.{table_to_object, lua_to_object}
use bspd.Script.Read.Settled.{lua_to_object-settled}
use bspd.Server.Task.{Ptr}
use bspd.Tests.Lua.{lua}
use bspd.Utils.Hex.{origin_heading, debug_hex}
use bspd.Utils.Hex.Reads.{read_cells, read_cells-debug_hex}
use bspd.Utils.Trace.{
  Trace, level_index, LogFile, callback_reopen_log, name_at, with_name, log_line, level_loop,
}
use bspd.Utils.Trace.Reopened.{append_all, no_lines, more_lines, append_log-callback_reopen_log}
use bspd.Wrapper.Dump.{PrintLib, misc_var_dump}
use bspd.Wrapper.Dump.Balanced.{depth, ended, dump_lines, misc_var_dump-ended}
use bspd.Wrapper.Timer.{TimeLib, NewTimer, standard_new_timer}
use bspd.Wrapper.Timer.Interval.{TimeLaws, standard_new_timer_nsec}

abbrev trace_of : ℕ → Trace
trace_of level = record {
  level = level;
  time = codes "now";
  tag = codes "bspd";
  msg = codes "hello";
}

abbrev logged : LogFile
logged = record { is_open = true; content = codes "old" }

abbrev line : Bytes
line = codes "[now][   ERR]-[bspd] : hello" ++ 10 ∷ []

append_log-callback_reopen_log_example :
    (f' : LogFile) × (append_all true (trace_of 8 ∷ []) logged ≡ some f')
    × (f'.content ≡ codes "old" ++ (line ++ []))
    × (append_all true (trace_of 8 ∷ []) (callback_reopen_log f')
        ≡ some (record { is_open = true; content = line ++ [] }))
unfolding level_index with_name name_at log_line level_loop
append_log-callback_reopen_log_example =
    append_log-callback_reopen_log true logged (trace_of 8 ∷ []) [] (line ++ []) (trace_of 8)
      (line ++ []) refl (more_lines refl no_lines) (more_lines refl no_lines)

abbrev buffer : Bytes
buffer = 0 ∷ 127 ∷ 255 ∷ []

read_cells-debug_hex_example :
    (out : Bytes) × (debug_hex (codes "0x10") (codes "now") (some buffer) ≡ some out)
    × (read_cells 3 0 (drop (length (origin_heading (codes "0x10") (codes "now") 3)) out) ≡ buffer)
read_cells-debug_hex_example =
    read_cells-debug_hex (codes "0x10") (codes "now") buffer (omega arith)
      (omega arith, (omega arith, (omega arith, tt)))

abbrev printing : PrintLib
printing = record {
  number_text = λ l. codes "1";
  pointer_text = λ p. codes "0x10";
  key_text = λ k. codes "k";
  check_stack = λ st. ltb (length st) 1001;
}

abbrev table : Lua
table = t_table (entry (t_string (codes "k")) (t_boolean true) new_table)

misc_var_dump-ended_example :
    misc_var_dump printing (table ∷ t_nil ∷ [])
    ≡ some (ended (dump_lines printing table), table ∷ t_nil ∷ [])
unfolding depth
misc_var_dump-ended_example =
    misc_var_dump-ended printing 1000 table (t_nil ∷ [])
      (λ st h. lt→ltb (length st) 1001 (omega (arith, h))) (omega arith)

abbrev empty_hash : Object
empty_hash = array nil

lua_to_object-settled_example :
    (settled_object empty_hash ≡ true)
    × (object_to_lua lua empty_hash (t_nil ∷ []) ≡ some (lua_of_object lua empty_hash ∷ t_nil ∷ []))
unfolding lua_to_object table_to_object
lua_to_object-settled_example =
    lua_to_object-settled lua 3 (t_table new_table) empty_hash (t_nil ∷ []) refl

-- A double as a whole number of nanoseconds, none of them negative.
abbrev nanoseconds : ℤ → ℕ
nanoseconds (pos n) = n * 1000000000
nanoseconds _ = 0

abbrev clock : TimeLib
clock = record {
  Double = ℕ;
  is_number = λ l. true;
  to_double = λ l. 2500000000;
  to_integer = λ l. pos 1;
  of_int = nanoseconds;
  truncate = λ v. pos (v / 1000000000);
  sub = λ v w. v - w;
  nanos = λ v. v * 1000000000;
}

seconds_of : (v n : ℕ) → pos (v / 1000000000) ≡ pos n → v / 1000000000 ≡ n
seconds_of v n e = ground (arith, e)

back : (v : ℕ) → v * 1000000000 / 1000000000 ≡ v
back v = omega arith

clock_laws : TimeLaws clock ltb
clock_laws = record {
  sub_zero = λ v x. omega arith;
  nanos_rest = λ v n x e.
      let q = seconds_of v n e in
      (v - n * 1000000000, ap pos (back (v - n * 1000000000)), omega (arith, q));
  nanos_seconds = λ v n x e. let q = seconds_of v n e in (v, ap pos (back v), omega (arith, q));
}

standard_new_timer_nsec_example :
    (p : Ptr) × (t : NewTimer) × (m : ℕ) × (k : ℕ) × (standard_new_timer clock
        (some 0)
        (λ u. 16)
        t_nil
        t_nil
        t_nil
      ≡ (t_light_userdata p, some t))
    × (t.initial ≡ record { sec = pos 2; nsec = pos m })
    × (m < 1000000000)
    × (t.interval ≡ record { sec = pos 2; nsec = pos k })
    × (2 * 1000000000 ≤ k)
standard_new_timer_nsec_example =
    standard_new_timer_nsec clock ltb 0 2 2 (λ u. 16) t_nil t_nil t_nil clock_laws
      (λ u e. omega arith) refl refl (refl, refl) (refl, refl) refl refl
