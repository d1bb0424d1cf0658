-- ===== src/Server/Conf/Types.antt =====
-- Which servers `_parse_conf_server` of server/conf.c can make.
use bspd.Common.{
  ◌<◌, ◌^◌, ◌≡◌, ◌≢◌, refl, ap, ◌∙◌, true, false, Option, none, some, arith, Bytes, codes,
  starts_with, starts_with_ci,
}
use bspd.Json.Value.{Value, string, hash, Fields}
use bspd.Server.Conf.{
  ServerConf, ConfLib, http_name, type_of_name, with_text, text_of, port_of, server_type_of,
  parse_conf_server,
}
use bspd.Server.Link.{ServerType, normal, http, websocket}

type_of_name_ne :
    (kept : ServerType) (s : Bytes) → kept ≢ websocket → type_of_name kept s ≢ websocket
unfolding type_of_name starts_with_ci starts_with
type_of_name_ne kept s h = ground arith

http_name_starts : (s : Bytes) → starts_with_ci http_name s ≡ true
unfolding starts_with_ci starts_with
http_name_starts s = refl

type_of_name_http :
    (s : Bytes)
    → starts_with_ci (codes "internal") s ≡ false
    → starts_with_ci (codes "normal") s ≡ false
    → type_of_name normal s ≡ http
unfolding type_of_name
type_of_name_http s i n = rw (i, n, http_name_starts s) refl

module _ (lib : ConfLib) where
  server_type_of_ne : (desc : Fields) → server_type_of lib desc ≢ websocket
  unfolding server_type_of
  server_type_of_ne desc = by_text (text_of lib desc (codes "type"))
    where
      by_text : (t : Option Bytes) → with_text lib type_of_name normal t ≢ websocket
      by_text none = λ e. cc
      by_text (some s) = type_of_name_ne normal s (λ e. cc)

  port_of-bound : (v : Option Value) → port_of lib v < 2 ^ 16
  unfolding port_of
  port_of-bound none = omega arith
  port_of-bound (some v) = omega arith

  text_of-string :
      (desc : Fields) (key s : Bytes)
      → lib.hash_value desc key ≡ some (string s)
      → text_of lib desc key ≡ some s
  unfolding text_of
  text_of-string desc key s e = ground (arith, lib.get_string-string s)

  type_is :
      (desc : Fields) (s : Bytes)
      → lib.hash_value desc (codes "type") ≡ some (string s)
      → starts_with_ci (codes "internal") s ≡ false
      → starts_with_ci (codes "normal") s ≡ false
      → server_type_of lib desc ≡ http
  unfolding server_type_of with_text
  type_is desc s e i n =
      ap (with_text lib type_of_name normal) (text_of-string desc (codes "type") s e)
      ∙ type_of_name_http s i n

  -- Every hash describes a server; its port has 16 bits, and its type is never WebSocket, whatever
  -- the description says.
  pub parse_conf_server_never_websocket :
      (desc : Fields)
      → (c : ServerConf) × (parse_conf_server lib (hash desc) ≡ some c)
        × (c.port < 2 ^ 16)
        × (c.prop.type_of ≢ websocket)
  unfolding parse_conf_server
  parse_conf_server_never_websocket desc =
      (_, refl, port_of-bound (lib.hash_value desc (codes "port")), server_type_of_ne desc)

  -- A type that begins with neither "internal" nor "normal", in upper or lower case, makes an HTTP
  -- server.
  pub parse_conf_server_http :
      (desc : Fields) (s : Bytes)
      → lib.hash_value desc (codes "type") ≡ some (string s)
      → starts_with_ci (codes "internal") s ≡ false
      → starts_with_ci (codes "normal") s ≡ false
      → (c : ServerConf) × (parse_conf_server lib (hash desc) ≡ some c) × (c.prop.type_of ≡ http)
  unfolding parse_conf_server
  parse_conf_server_http desc s e i n = (_, refl, type_is desc s e i n)
