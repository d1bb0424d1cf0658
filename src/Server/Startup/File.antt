-- ===== src/Server/Startup/File.antt =====
-- The start with the configuration file: `get_conf_from_file` of server/conf.c in `bspd_startup`.
use bspd.Common.{◌≡◌, ◌≢◌, refl, ap, ◌∙◌, Option, none, some, Bytes}
use bspd.Json.Decode.{NumLib, Run, done, ◌>>=◌, json_nd_decode}
use bspd.Json.Decode.Total.{json_nd_decode-total}
use bspd.Json.Encode.{TextLib, json_nd_encode}
use bspd.Json.RoundTrip.{Good, NumLaws}
use bspd.Json.RoundTrip.Objects.{json_nd_decode-encode}
use bspd.Json.Value.{Object, undetermined, single, array, hash, object, Fields}
use bspd.Script.Container.{LuaVm}
use bspd.Server.Clients.{HashLib, World}
use bspd.Server.Conf.{ConfLib}
use bspd.Server.Conf.Global.{Config}
use bspd.Server.Startup.{Machine, Serving, is_hash, configured, bspd_startup}
use bspd.Server.Startup.Init.{Ended, goes_on, first_world}
use bspd.Server.Startup.Listen.{NetLib}
use bspd.Server.Startup.Serves.{Prepared, bspd_startup-configured}
use bspd.Server.Status.{Rtn, rtn_err_general}

-- What was read is decoded; `none` is NULL, of a file that is not read.
abbrev decode_file : NumLib → Option Bytes → Run (Option Object)
decode_file num none = done none
decode_file num (some str) = json_nd_decode num str

-- `read` is `bsp_new_string_from_file`.
unfoldable pub get_conf_from_file : NumLib → (Bytes → Option Bytes) → Bytes → Run (Option Object)
get_conf_from_file num read filename = decode_file num (read filename)

decode_file-Returns :
    (num : NumLib) (file : Option Bytes) → (o : Option Object) × (decode_file num file ≡ done o)
decode_file-Returns num none = (none, refl)
decode_file-Returns num (some str) = json_nd_decode-total num str

module _ (num : NumLib) (read : Bytes → Option Bytes) (filename : Bytes) where
  get_conf_from_file_read :
      (file : Option Bytes)
      → read filename ≡ file
      → get_conf_from_file num read filename ≡ decode_file num file
  unfolding get_conf_from_file
  get_conf_from_file_read file e = ap (decode_file num) e

  get_conf_from_file-encode :
      (text : TextLib) (fs : Fields)
      → NumLaws num
      → Good text (object (hash fs))
      → read filename ≡ some (json_nd_encode text (hash fs) none)
      → get_conf_from_file num read filename ≡ done (some (hash fs))
  get_conf_from_file-encode text fs laws g e =
      get_conf_from_file_read (some (json_nd_encode text (hash fs) none)) e
      ∙ json_nd_decode-encode text num laws (hash fs) g

module _ (lib : ConfLib) (vm : LuaVm) (hashes : HashLib) (net : NetLib) where
  configured_no_hash :
      (m : Machine lib vm hashes net) (c : Config) (w : Option (World hashes)) (o : Option Object)
      → ((fs : Fields) → o ≢ some (hash fs))
      → configured lib vm hashes net (record m { conf = o }) c w ≡ goes_on (rtn_err_general, none)
  unfolding configured is_hash
  configured_no_hash m c w none without = refl
  configured_no_hash m c w (some undetermined) without = refl
  configured_no_hash m c w (some (single v)) without = refl
  configured_no_hash m c w (some (array xs)) without = refl
  configured_no_hash m c w (some (hash fs)) without = absurd (without fs refl)

  module _ (num : NumLib) (read : Bytes → Option Bytes) (filename : Bytes) where
    -- `bspd_startup` with what stands in the file for the configuration.
    unfoldable pub startup_from_file :
        Machine lib vm hashes net → Config → Run (Ended (Rtn × Option (Serving lib vm hashes net)))
    startup_from_file m c =
        get_conf_from_file num read filename
        >>= (λ o. done (bspd_startup lib vm hashes net (record m { conf = o }) c))

    startup_from_file_read :
        (m : Machine lib vm hashes net) (c : Config) (o : Option Object)
        → get_conf_from_file num read filename ≡ done o
        → startup_from_file m c ≡ done (bspd_startup lib vm hashes net (record m { conf = o }) c)
    unfolding startup_from_file
    startup_from_file_read m c o e =
        ap (λ r. r >>= (λ o. done (bspd_startup lib vm hashes net (record m { conf = o }) c))) e

    startup_from_file_no_hash :
        (m : Machine lib vm hashes net) (c : Config) (o : Option Object)
        → Prepared lib vm hashes net m
        → get_conf_from_file num read filename ≡ done o
        → ((fs : Fields) → o ≢ some (hash fs))
        → startup_from_file m c ≡ done (goes_on (rtn_err_general, none))
    startup_from_file_no_hash m c o p e without =
        let m' : Machine lib vm hashes net = record m { conf = o } in
        let p' : Prepared lib vm hashes net m' = record {
          bsp_init = p.bsp_init;
          task_pool = p.task_pool;
          bared_pool = p.bared_pool;
          clients = p.clients;
        } in
        startup_from_file_read m c o e
        ∙ ap done (
            bspd_startup-configured lib vm hashes net m' c p'
            ∙ configured_no_hash m c (some (first_world hashes m.clients.global_block)) o without)

    -- If all before the configuration succeeds: whatever bytes the file holds, the start comes to a
    -- result; if the file is not read, or no hash is decoded from it, that is an error, with nothing
    -- served; if it holds the JSON text of a good hash, the start is the one with that hash.
    pub startup_from_file-bspd_startup :
        (m : Machine lib vm hashes net) (c : Config) (text : TextLib)
        → NumLaws num
        → Prepared lib vm hashes net m
        → ((r : Ended (Rtn × Option (Serving lib vm hashes net))) × (startup_from_file m c
              ≡ done r))
          × (read filename ≡ none → startup_from_file m c ≡ done (goes_on (rtn_err_general, none)))
          × ((str : Bytes)
              → read filename ≡ some str
              → ((fs : Fields) → json_nd_decode num str ≢ done (some (hash fs)))
              → startup_from_file m c ≡ done (goes_on (rtn_err_general, none)))
          × ((fs : Fields)
              → Good text (object (hash fs))
              → read filename ≡ some (json_nd_encode text (hash fs) none)
              → startup_from_file m c
                ≡ done (bspd_startup lib vm hashes net (record m { conf = some (hash fs) }) c))
    startup_from_file-bspd_startup m c text laws p =
        let (o, e) = decode_file-Returns num (read filename) in
        (
          (
            bspd_startup lib vm hashes net (record m { conf = o }) c,
            startup_from_file_read m c o
                (get_conf_from_file_read num read filename (read filename) refl ∙ e),
          ),
          λ missing.
              startup_from_file_no_hash m c none p
                (get_conf_from_file_read num read filename none missing) (λ fs z. cc),
          λ str at without.
              let (d, f) = json_nd_decode-total num str in
              startup_from_file_no_hash m c d p
                (get_conf_from_file_read num read filename (some str) at ∙ f)
                (λ fs z. without fs (f ∙ ap done z)),
          λ fs g at.
              startup_from_file_read m c (some (hash fs))
                (get_conf_from_file-encode num read filename text fs laws g at),
        )
