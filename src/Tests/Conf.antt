-- ===== src/Tests/Conf.antt =====
-- Runs of server/conf.c.
use bspd.Common.{ℕ, refl, Bool, false, [], Option, none, some, if◌then◌else◌, Bytes, codes, pos}
use bspd.Json.Value.{
  Value, null, int, boolean, string, object, Object, array, hash, Items, nil, cons, Fields, end,
  field,
}
use bspd.Server.Conf.{ConfLib}
use bspd.Server.Conf.Levels.{flags, all}
use bspd.Server.Conf.Global.{Config}
use bspd.Tests.Clients.{same}

abbrev pub entry : Fields → Bytes → Option Value
entry end key = none
entry (field k v fs) key = let rest = entry fs key in if same k key then some v else rest

abbrev string_of : Value → Option Bytes
string_of (string s) = some s
string_of _ = none

abbrev int_of_value : Value → ℕ
int_of_value (int (pos n)) = n
int_of_value _ = 0

abbrev object_of : Value → Option Object
object_of (object o) = some o
object_of _ = none

abbrev value_of : Object → Bytes → Option Value
value_of (hash fs) key = entry fs key
value_of _ key = none

abbrev boolean_of : Value → Bool
boolean_of (boolean b) = b
boolean_of _ = false

abbrev pub reader : ConfLib
reader = record {
  hash_value = entry;
  object_value = value_of;
  get_object = object_of;
  get_string = string_of;
  get_int = int_of_value;
  get_boolean = boolean_of;
  object_value-hash = λ fs key. refl;
  get_object-object = λ o. refl;
  get_string-string = λ s. refl;
}

abbrev description : Fields
description =
    field (codes "port") (int (pos 70000)) (field (codes "type") (string (codes "websocket")) end)

abbrev pub blank_config : Config
blank_config = record {
  verbose = false;
  daemonize = false;
  enable_main_clock = false;
  trace_level = flags [];
  log_level = all;
  boss_threads = 1;
  acceptor_threads = 1;
  io_threads = 4;
  worker_threads = 4;
  script = none;
  lua_hook_load = none;
  servers = [];
}

abbrev pub globals : Fields
globals = field (codes "io_threads") (int (pos 8)) end

abbrev pub two_servers : Items
two_servers = cons (object (hash description)) (cons null (cons (object (hash end)) nil))

abbrev pub configuration_fields : Fields
configuration_fields =
    field (codes "global") (object (hash globals))
      (field (codes "servers") (object (array two_servers)) end)
