-- ===== src/Server/Conf.antt =====
-- `_parse_conf_server` of server/conf.c: the description of a server in the configuration.
pub mod Types
pub mod Levels
pub mod Global
use bspd.Common.{
  ℕ, ◌%◌, ◌^◌, ◌≡◌, Bool, true, false, Option, none, some, [], if◌then◌else◌, Bytes, codes,
  starts_with_ci,
}
use bspd.Json.Value.{Value, string, object, Object, hash, Fields}
use bspd.Server.Link.{ServerType, internal, normal, http, websocket, ServerProp}

pub data InetType : Type 0 where
  inet_any inet_ipv4 inet_ipv6 inet_local : InetType

pub data SockType : Type 0 where
  sock_any sock_tcp sock_udp sock_sctp : SockType

-- `struct bspd_server_t`, but for the socket server that is made later.
pub record ServerConf : Type 0 where
  pub name : Option Bytes
  pub addr : Option Bytes
  pub port : ℕ
  pub inet_type : InetType
  pub sock_type : SockType
  pub debug_input : Bool
  pub debug_output : Bool
  pub prop : ServerProp

-- What is read of libbsp's values: `bsp_object_value_hash_original`, of a hash and of an object of
-- any type, and `V_GET_STRING`, `V_GET_OBJECT`, `V_GET_INT` as a 64-bit pattern and
-- `V_GET_BOOLEAN`, of values of any type.
pub record ConfLib : Type 0 where
  pub hash_value : Fields → Bytes → Option Value
  pub object_value : Object → Bytes → Option Value
  pub get_object : Value → Option Object
  pub get_string : Value → Option Bytes
  pub get_int : Value → ℕ
  pub get_boolean : Value → Bool
  pub object_value-hash :
      (fs : Fields) (key : Bytes) → object_value (hash fs) key ≡ hash_value fs key
  pub get_object-object : (o : Object) → get_object (object o) ≡ some o
  pub get_string-string : (s : Bytes) → get_string (string s) ≡ some s

-- `strncasecmp(s, "http", 0)` compares no byte.
abbrev pub http_name : Bytes
http_name = []

-- The tests on a text, in order; where none holds, the value is kept.
unfoldable pub inet_of : InetType → Bytes → InetType
unfolding starts_with_ci
inet_of kept s =
    if starts_with_ci (codes "ipv4") s
    then inet_ipv4
    else if starts_with_ci (codes "ipv6") s
    then inet_ipv6
    else if starts_with_ci (codes "local") s
    then inet_local
    else kept

unfoldable pub sock_of : SockType → Bytes → SockType
unfolding starts_with_ci
sock_of kept s =
    if starts_with_ci (codes "tcp") s
    then sock_tcp
    else if starts_with_ci (codes "udp") s
    then sock_udp
    else if starts_with_ci (codes "sctp") s
    then sock_sctp
    else kept

unfoldable pub type_of_name : ServerType → Bytes → ServerType
type_of_name kept s =
    if starts_with_ci (codes "internal") s
    then internal
    else if starts_with_ci (codes "normal") s
    then normal
    else if starts_with_ci http_name s
    then http
    else if starts_with_ci (codes "websocket") s
    then websocket
    else kept

module _ (lib : ConfLib) where
  open lib use {hash_value, get_string, get_int, get_boolean}

  -- The text of an entry, if there is one.
  unfoldable pub text_of : Fields → Bytes → Option Bytes
  text_of desc key = elim (hash_value desc key) [ none ↦ none | some v ↦ get_string v ]

  -- What an entry makes of the value that `bsp_calloc` or the default has set.
  unfoldable pub with_text : {A : Type 0} → (A → Bytes → A) → A → Option Bytes → A
  with_text f kept none = kept
  with_text f kept (some s) = f kept s

  flag_of : Fields → Bytes → Bool
  flag_of desc key = elim (hash_value desc key) [ none ↦ false | some v ↦ get_boolean v ]

  port_of : Option Value → ℕ
  port_of none = 0
  port_of (some v) = get_int v % 2 ^ 16

  unfoldable pub server_type_of : Fields → ServerType
  unfolding with_text text_of
  server_type_of desc = with_text type_of_name normal (text_of desc (codes "type"))

  packets_of : Fields → Bool
  packets_of desc =
      with_text (λ kept s. if starts_with_ci (codes "packet") s then true else kept) false
        (text_of desc (codes "data_type"))

  unfoldable pub parse_conf_server : Object → Option ServerConf
  unfolding with_text text_of flag_of port_of packets_of
  parse_conf_server (hash desc) = some (record {
    name = text_of desc (codes "name");
    addr = text_of desc (codes "addr");
    port = port_of (hash_value desc (codes "port"));
    inet_type = with_text inet_of inet_any (text_of desc (codes "inet"));
    sock_type = with_text sock_of sock_any (text_of desc (codes "sock"));
    debug_input = flag_of desc (codes "debug_input");
    debug_output = flag_of desc (codes "debug_output");
    prop = record {
      type_of = server_type_of desc;
      packets = packets_of desc;
      lua_hook_connect = text_of desc (codes "lua_hook_connect");
      lua_hook_disconnect = text_of desc (codes "lua_hook_disconnect");
      lua_hook_data = text_of desc (codes "lua_hook_data");
    };
  })
  parse_conf_server _ = none
