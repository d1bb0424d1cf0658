-- ===== src/Server/Conf/Global/Servers.antt =====
-- What `parse_conf` of server/conf.c makes of a configuration.
use mathlib.Core.List.{filter_map, reverse, reverse_aux, reverse_aux-eq}
use bspd.Common.{◌≡◌, ◌≢◌, refl, true, Option, none, some, List, [], ◌∷◌, ◌++◌, Bytes, codes, arith}
use bspd.Json.Value.{object, Object, undetermined, single, array, hash, Items, nil, cons, Fields}
use bspd.Server.Conf.{ServerConf, ConfLib, parse_conf_server}
use bspd.Server.Conf.Levels.{all}
use bspd.Server.Conf.Global.{
  Config, parse_global, parse_item, parse_servers, with_servers, object_at, parse_with, parse_conf,
}
use bspd.Server.Status.{rtn_success}

module _ (lib : ConfLib) where
  abbrev with_description : Option Object → List Fields → List Fields
  with_description (some (hash desc)) rest = desc ∷ rest
  with_description _ rest = rest

  -- The items of the list of servers that are hashes.
  abbrev pub descriptions : Items → List Fields
  descriptions nil = []
  descriptions (cons v xs) = with_description (lib.get_object v) (descriptions xs)

  abbrev pub described : Items → List ServerConf
  described xs = filter_map (λ (desc : Fields). parse_conf_server lib (hash desc)) (descriptions xs)

  parse_item-described :
      (o : Option Object) (xs : Items) (servers : List ServerConf)
      → parse_servers lib xs (parse_item lib o servers)
        ≡ reverse_aux (described xs) (parse_item lib o servers)
      → parse_servers lib xs (parse_item lib o servers)
        ≡ reverse_aux
            (filter_map
              (λ (desc : Fields). parse_conf_server lib (hash desc))
              (with_description o (descriptions xs)))
            servers
  unfolding parse_item filter_map parse_conf_server
  parse_item-described none xs servers h = h
  parse_item-described (some undetermined) xs servers h = h
  parse_item-described (some (single v)) xs servers h = h
  parse_item-described (some (array ys)) xs servers h = h
  parse_item-described (some (hash desc)) xs servers h = h

  parse_servers-described :
      (xs : Items) (servers : List ServerConf)
      → parse_servers lib xs servers ≡ reverse_aux (described xs) servers
  unfolding parse_servers filter_map
  parse_servers-described nil servers = refl
  parse_servers-described (cons v xs) servers =
      parse_item-described (lib.get_object v) xs servers
        (parse_servers-described xs (parse_item lib (lib.get_object v) servers))

  object_at-object :
      (fs : Fields) (key : Bytes) (o : Object)
      → lib.hash_value fs key ≡ some (object o)
      → object_at lib (hash fs) key ≡ some o
  unfolding object_at
  object_at-object fs key o e =
      ground (arith, lib.object_value-hash fs key, lib.get_object-object o)

  -- A configuration with a hash for "global" and a list for "servers" is read with success: the
  -- first has its entries read, and the second's hashes are put before the servers that were known,
  -- the last one first.
  pub parse_conf-servers :
      (fs global : Fields) (xs : Items) (c : Config)
      → lib.hash_value fs (codes "global") ≡ some (object (hash global))
      → lib.hash_value fs (codes "servers") ≡ some (object (array xs))
      → parse_conf lib (some (hash fs)) c ≡ (
        rtn_success,
        record (parse_global lib global c) { servers = reverse (described xs) ++ c.servers },
      )
  unfolding parse_conf parse_with with_servers parse_global
  parse_conf-servers fs global xs c g s =
      rw
        (
          object_at-object fs (codes "global") (hash global) g,
          object_at-object fs (codes "servers") (array xs) s,
          parse_servers-described xs c.servers,
          reverse_aux-eq (described xs) c.servers,
        )
        refl

  with_servers_kept :
      (o : Option Object) (c : Config)
      → ((with_servers lib o c).daemonize ≡ c.daemonize)
        × ((with_servers lib o c).trace_level ≡ c.trace_level)
  unfolding with_servers
  with_servers_kept none c = (refl, refl)
  with_servers_kept (some undetermined) c = (refl, refl)
  with_servers_kept (some (single v)) c = (refl, refl)
  with_servers_kept (some (array xs)) c = (refl, refl)
  with_servers_kept (some (hash fs)) c = (refl, refl)

  parse_with_failed :
      (conf : Object) (o : Option Object) (c : Config)
      → (parse_with lib conf o c).0 ≢ rtn_success
      → (parse_with lib conf o c).1 ≡ c
  unfolding parse_with
  parse_with_failed conf none c h = refl
  parse_with_failed conf (some undetermined) c h = refl
  parse_with_failed conf (some (single v)) c h = refl
  parse_with_failed conf (some (array xs)) c h = refl
  parse_with_failed conf (some (hash fs)) c h = absurd (h refl)

  -- When the call fails, the configuration is as it was.
  pub parse_conf_failed :
      (conf : Option Object) (c : Config)
      → (parse_conf lib conf c).0 ≢ rtn_success
      → (parse_conf lib conf c).1 ≡ c
  unfolding parse_conf
  parse_conf_failed none c h = refl
  parse_conf_failed (some conf) c h =
      parse_with_failed conf (object_at lib conf (codes "global")) c h

  -- What the command line has set stays, whatever a configuration with a hash for "global" says: a
  -- verbose server traces at every level, and a daemon stays one.
  pub parse_conf_command_line :
      (fs global : Fields) (c : Config)
      → lib.hash_value fs (codes "global") ≡ some (object (hash global))
      → c.verbose ≡ true
      → c.daemonize ≡ true
      → ((parse_conf lib (some (hash fs)) c).1.trace_level ≡ all)
        × ((parse_conf lib (some (hash fs)) c).1.daemonize ≡ true)
  unfolding parse_conf parse_with parse_global
  parse_conf_command_line fs global c g v d =
      let kept =
        with_servers_kept (object_at lib (hash fs) (codes "servers")) (parse_global lib global c) in
      rw (object_at-object fs (codes "global") (hash global) g, kept.0, kept.1, v, d) (refl, refl)
