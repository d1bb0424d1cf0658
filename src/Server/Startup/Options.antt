-- ===== src/Server/Startup/Options.antt =====
-- The options of the command line in `main` of bspd.c.
use bspd.Common.{
  ◌≡◌, Bool, true, false, ◌||◌, Option, none, some, List, [], ◌∷◌, ◌++◌, Bytes, take, arith,
}

-- What `getopt` gives in turn: `-h`, `-v`, `-d`, `-c` and `-p` with their arguments, or anything else.
pub data Opt : Type 0 where
  help verbose daemon other : Opt
  config pid : Bytes → Opt

-- The fields of `global_config` that `main` sets.
pub record Settings : Type 0 where
  pub is_verbose : Bool
  pub daemonize : Bool
  pub enable_main_clock : Bool
  pub config_file : Bytes
  pub pid_file : Bytes
  pub log_file : Bytes

-- `snprintf` with the size `_POSIX_PATH_MAX - 1`, which is 255, keeps 254 bytes and a NUL.
unfoldable pub copy_path : Bytes → Bytes
copy_path s = take 254 s

unfoldable pub join_path : Bytes → Bytes → Bytes
join_path dir name = dir ++ (b'/' ∷ name)

-- The paths of the build: the prefix, the two files, and the directory and the name of the log.
unfoldable pub default_settings : Bytes → Bytes → Bytes → Bytes → Bytes → Settings
unfolding copy_path join_path
default_settings prefix conf_file pid_file log_dir log_name = record {
  is_verbose = false;
  daemonize = false;
  enable_main_clock = true;
  config_file = copy_path (join_path prefix conf_file);
  pid_file = copy_path (join_path prefix pid_file);
  log_file = copy_path (join_path (join_path prefix log_dir) log_name);
}

-- The loop; `none` shows the help and ends the program.
unfoldable pub read_options : List Opt → Settings → Option Settings
unfolding copy_path
read_options [] s = some s
read_options (help ∷ opts) s = none
read_options (verbose ∷ opts) s = read_options opts (record s { is_verbose = true })
read_options (daemon ∷ opts) s = read_options opts (record s { daemonize = true })
read_options (other ∷ opts) s = read_options opts s
read_options (config f ∷ opts) s = read_options opts (record s { config_file = copy_path f })
read_options (pid f ∷ opts) s = read_options opts (record s { pid_file = copy_path f })

-- Whether an option that a test picks is given.
abbrev pub any : (Opt → Bool) → List Opt → Bool
any test [] = false
any test (o ∷ opts) = test o || any test opts

-- The last argument that is picked, cut, or what was there.
abbrev pub last_path : (Opt → Option Bytes) → List Opt → Bytes → Bytes
last_path pick [] old = old
last_path pick (o ∷ opts) old =
    last_path pick opts (elim (pick o) [ none ↦ old | some f ↦ take 254 f ])

abbrev pub is_help : Opt → Bool
is_help help = true
is_help _ = false

abbrev pub is_v : Opt → Bool
is_v verbose = true
is_v _ = false

abbrev pub is_d : Opt → Bool
is_d daemon = true
is_d _ = false

abbrev pub config_arg : Opt → Option Bytes
config_arg (config f) = some f
config_arg _ = none

abbrev pub pid_arg : Opt → Option Bytes
pid_arg (pid f) = some f
pid_arg _ = none

-- What the options say, whatever their order.
abbrev pub chosen : List Opt → Settings → Settings
chosen opts s = record s {
  is_verbose = s.is_verbose || any is_v opts;
  daemonize = s.daemonize || any is_d opts;
  config_file = last_path config_arg opts s.config_file;
  pid_file = last_path pid_arg opts s.pid_file;
}

-- With `-h` anywhere the program ends; without it, the server is verbose and a daemon if `-v` and
-- `-d` are given, or were set, and each path is the last argument for it, of at most 254 bytes.
pub read_options-chosen :
    (opts : List Opt) (s : Settings)
    → (any is_help opts ≡ true → read_options opts s ≡ none)
      × (any is_help opts ≡ false → read_options opts s ≡ some (chosen opts s))
unfolding read_options
read_options-chosen [] s = ground arith
read_options-chosen (help ∷ opts) s = ground arith
read_options-chosen (verbose ∷ opts) s =
    ground (arith, read_options-chosen opts (record s { is_verbose = true }))
read_options-chosen (daemon ∷ opts) s =
    ground (arith, read_options-chosen opts (record s { daemonize = true }))
read_options-chosen (other ∷ opts) s = read_options-chosen opts s
read_options-chosen (config f ∷ opts) s =
    read_options-chosen opts (record s { config_file = take 254 f })
read_options-chosen (pid f ∷ opts) s = read_options-chosen opts (record s { pid_file = take 254 f })
