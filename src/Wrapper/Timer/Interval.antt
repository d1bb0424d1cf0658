-- ===== src/Wrapper/Timer/Interval.antt =====
-- The nanoseconds of the times that `standard_new_timer` of wrapper/standard.c makes.
use bspd.Common.{
  Bool, false, ◌^◌, ℕ, ◌*◌, ◌≤◌, ◌<◌, ◌≡◌, ◌≢◌, ap, ◌∙◌, true, some, ℤ, pos, if◌then◌else◌, if_true,
  arith,
}
use bspd.Script.Lua.{Lua, t_light_userdata}
use bspd.Server.Task.{Ptr, null_ptr}
use bspd.Wrapper.Timer.{
  Timespec, TimeLib, NewTimer, initial_time, interval_time, optional_interval, standard_new_timer,
}

-- The doubles from 0 to below 2 ^ 22, by C's order `less`. Up to there the nanoseconds of a whole
-- number of seconds are a double, and a `long` holds the nanoseconds.
abbrev pub IsTime : (lib : TimeLib) → (lib.Double → lib.Double → Bool) → lib.Double → Type 0
IsTime lib less v =
    (less v (lib.of_int (pos 0)) ≡ false) × (less v (lib.of_int (pos (2 ^ 22))) ≡ true)

-- What the arithmetic of doubles gives for such times: nothing is changed where 0 is subtracted, the
-- rest behind the whole seconds is less than a second, and the nanoseconds of a time are not less
-- than those of its seconds.
pub record TimeLaws (lib : TimeLib) (less : lib.Double → lib.Double → Bool) : Type 0 where
  pub sub_zero : (v : lib.Double) → IsTime lib less v → lib.sub v (lib.of_int (pos 0)) ≡ v
  pub nanos_rest :
      (v : lib.Double) (n : ℕ)
      → IsTime lib less v
      → lib.truncate v ≡ pos n
      → (m : ℕ) × (lib.truncate (lib.nanos (lib.sub v (lib.of_int (pos n)))) ≡ pos m)
        × (m < 1000000000)
  pub nanos_seconds :
      (v : lib.Double) (n : ℕ)
      → IsTime lib less v
      → lib.truncate v ≡ pos n
      → (m : ℕ) × (lib.truncate (lib.nanos v) ≡ pos m) × (n * 1000000000 ≤ m)

module _ (lib : TimeLib) where
  optional_interval_given :
      (l : Lua)
      → lib.is_number l ≡ true
      → optional_interval lib l ≡ interval_time lib (lib.to_double l)
  unfolding optional_interval
  optional_interval_given l h = if_true (lib.is_number l) _ _ h

  initial_time_split :
      (v : lib.Double) (a m : ℕ)
      → lib.truncate v ≡ pos a
      → lib.truncate (lib.nanos (lib.sub v (lib.of_int (pos a)))) ≡ pos m
      → initial_time lib v ≡ record { sec = pos a; nsec = pos m }
  unfolding initial_time
  initial_time_split v a m e f =
      ap
        (λ (z : ℤ).
          let t : Timespec = record {
            sec = z;
            nsec = lib.truncate (lib.nanos (lib.sub v (lib.of_int z)));
          } in
          t)
        e
      ∙ ap (λ (z : ℤ). let t : Timespec = record { sec = pos a; nsec = z } in t) f

  interval_time_whole :
      (v : lib.Double) (n k : ℕ)
      → lib.sub v (lib.of_int (pos 0)) ≡ v
      → lib.truncate v ≡ pos n
      → lib.truncate (lib.nanos v) ≡ pos k
      → interval_time lib v ≡ record { sec = pos n; nsec = pos k }
  unfolding interval_time
  interval_time_whole v n k whole e f =
      ap
        (λ (d : lib.Double).
          let t : Timespec = record { sec = lib.truncate v; nsec = lib.truncate (lib.nanos d) } in
          t)
        whole
      ∙ ap
          (λ (z : ℤ). let t : Timespec = record { sec = z; nsec = lib.truncate (lib.nanos v) } in t)
          e
      ∙ ap (λ (z : ℤ). let t : Timespec = record { sec = pos n; nsec = z } in t) f

  made : ℕ → Lua → Lua → Lua → NewTimer
  made container initial interval loop = record {
    container = container;
    initial = initial_time lib (lib.to_double initial);
    interval = optional_interval lib interval;
    loop = (if lib.is_number loop then lib.to_integer loop else pos 1);
  }

  standard_new_timer-made :
      (container : ℕ) (make : NewTimer → Ptr) (initial interval loop : Lua)
      → lib.is_number initial ≡ true
      → make (made container initial interval loop) ≢ null_ptr
      → standard_new_timer lib (some container) make initial interval loop ≡ (
        t_light_userdata (make (made container initial interval loop)),
        some (made container initial interval loop),
      )
  unfolding standard_new_timer made
  standard_new_timer-made container make initial interval loop h ne = ground (arith, h, ne)

  -- A script that asks for a timer gets one whose first time is split into seconds and less than
  -- 1000000000 nanoseconds, while the interval counts its seconds in the nanoseconds once more, so
  -- that from one second on they are too many: if a timer is made, both times are from 0 to below
  -- 2 ^ 22 seconds, and the arithmetic of doubles is exact there.
  pub standard_new_timer_nsec :
      (less : lib.Double → lib.Double → Bool) (container a n : ℕ) (make : NewTimer → Ptr)
      (initial interval loop : Lua)
      → TimeLaws lib less
      → ((t : NewTimer) → make t ≢ null_ptr)
      → lib.is_number initial ≡ true
      → lib.is_number interval ≡ true
      → IsTime lib less (lib.to_double initial)
      → IsTime lib less (lib.to_double interval)
      → lib.truncate (lib.to_double initial) ≡ pos a
      → lib.truncate (lib.to_double interval) ≡ pos n
      → (p : Ptr) × (t : NewTimer) × (m : ℕ) × (k : ℕ) × (standard_new_timer lib
            (some container)
            make
            initial
            interval
            loop
          ≡ (t_light_userdata p, some t))
        × (t.initial ≡ record { sec = pos a; nsec = pos m })
        × (m < 1000000000)
        × (t.interval ≡ record { sec = pos n; nsec = pos k })
        × (n * 1000000000 ≤ k)
  unfolding made
  standard_new_timer_nsec less container a n make initial interval loop laws some_timer h k x y e
        f =
      let t = made container initial interval loop in
      let v = lib.to_double initial in
      let w = lib.to_double interval in
      let (m, em, lm) = laws.nanos_rest v a x e in
      let (j, ej, lj) = laws.nanos_seconds w n y f in
      (
        make t,
        t,
        m,
        j,
        standard_new_timer-made container make initial interval loop h (some_timer t),
        initial_time_split v a m e em,
        lm,
        optional_interval_given interval k ∙ interval_time_whole w n j (laws.sub_zero w y) f ej,
        lj,
      )
