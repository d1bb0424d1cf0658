-- ===== src/Wrapper/Timer.antt =====
-- `standard_new_timer` and `standard_stop_timer` of wrapper/standard.c.
pub mod Interval
use bspd.Common.{ℕ, Bool, true, false, Option, none, some, ℤ, pos, ◌==◌, if◌then◌else◌}
use bspd.Script.Lua.{Lua, t_nil, t_boolean, t_light_userdata}
use bspd.Server.Status.{Rtn, rtn_success}
use bspd.Server.Task.{Ptr, null_ptr}
use bspd.Wrapper.Sessions.{is_success}

-- A `struct timespec`
pub record Timespec : Type 0 where
  pub sec : ℤ
  pub nsec : ℤ

-- Doubles and arguments: `lua_isnumber`, `lua_tonumber`, `lua_tointeger`, the conversions from and to
-- an integer, which cuts the fraction off, and the difference and the multiple by 1000000000.
pub record TimeLib : Type 1 where
  pub Double : Type 0
  pub is_number : Lua → Bool
  pub to_double : Lua → Double
  pub to_integer : Lua → ℤ
  pub of_int : ℤ → Double
  pub truncate : Double → ℤ
  pub sub : Double → Double → Double
  pub nanos : Double → Double

-- What a new timer is made of.
pub record NewTimer : Type 0 where
  pub container : ℕ
  pub initial : Timespec
  pub interval : Timespec
  pub loop : ℤ

module _ (lib : TimeLib) where
  open lib use {Double, is_number, to_double, to_integer, of_int, truncate, sub, nanos}

  -- The fraction is what the whole seconds leave.
  unfoldable pub initial_time : Double → Timespec
  initial_time v = record {
    sec = truncate v;
    nsec = truncate (nanos (sub v (of_int (truncate v))));
  }

  -- Here `tv_nsec`, which is still 0, is subtracted, where `tv_sec` is meant.
  unfoldable pub interval_time : Double → Timespec
  interval_time v = record { sec = truncate v; nsec = truncate (nanos (sub v (of_int (pos 0)))) }

  unfoldable pub optional_interval : Lua → Timespec
  unfolding interval_time
  optional_interval l =
      if is_number l then interval_time (to_double l) else record { sec = pos 0; nsec = pos 0 }

  -- The container of the thread that runs the script, if there is one, and `bsp_new_timer`, which
  -- makes a timer or returns NULL.
  unfoldable pub standard_new_timer :
      Option ℕ → (NewTimer → Ptr) → Lua → Lua → Lua → Lua × Option NewTimer
  unfolding initial_time optional_interval
  standard_new_timer none make initial interval loop = (t_nil, none)
  standard_new_timer (some container) make initial interval loop =
      let timer : NewTimer = record {
        container = container;
        initial = initial_time (to_double initial);
        interval = optional_interval interval;
        loop = (if is_number loop then to_integer loop else pos 1);
      } in
      if is_number initial
      then if make timer == null_ptr
        then (t_nil, some timer)
        else (t_light_userdata (make timer), some timer)
      else (t_nil, none)

-- The argument on top of the stack; `bsp_del_timer` answers for the pointer.
unfoldable pub standard_stop_timer : (ℕ → Rtn) → Lua → Lua
unfolding is_success
standard_stop_timer del (t_light_userdata p) = t_boolean (is_success (del p))
standard_stop_timer del _ = t_nil
