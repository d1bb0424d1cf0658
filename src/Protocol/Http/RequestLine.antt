-- ===== src/Protocol/Http/RequestLine.antt =====
-- What `_parse_http_request_line` reads from a request line.
use bspd.Common.{
  ℕ, ◌+◌, ◌≡◌, ◌≢◌, refl, ◌∙◌, true, false, none, some, [], ◌∷◌, ◌++◌, arith, append-nil,
  append_assoc, Bytes, codes, starts_with, above_space, length, All,
}
use bspd.Json.Value.{string, Fields, end, field, push_field}
use bspd.Protocol.Http.{request_method, uri_scan, version_scan, set_uri, parse_request_line}

pub data Method : Type 0 where
  options get head post put delete trace connect : Method

unfoldable pub method_name : Method → Bytes
method_name options = codes "OPTIONS"
method_name get = codes "GET"
method_name head = codes "HEAD"
method_name post = codes "POST"
method_name put = codes "PUT"
method_name delete = codes "DELETE"
method_name trace = codes "TRACE"
method_name connect = codes "CONNECT"

pub data Version : Type 0 where
  v09 v10 v11 v20 : Version

unfoldable pub version_name : Version → Bytes
version_name v09 = codes "0.9"
version_name v10 = codes "1.0"
version_name v11 = codes "1.1"
version_name v20 = codes "2.0"

-- `METHOD uri HTTP/version`, and whatever follows.
unfoldable pub print_request_line : Method → Bytes → Version → Bytes → Bytes
unfolding method_name version_name
print_request_line m uri v rest =
    method_name m ++ (b' ' ∷ (uri ++ (b' ' ∷ (codes "HTTP/" ++ (version_name v ++ rest)))))

abbrev pub IsUri : Bytes → Type 0
IsUri u = All (λ c. above_space c ≡ true) u × (u ≢ [])

abbrev pub request_fields : Bytes → Bytes → Bytes → Fields
request_fields m uri v =
    field (codes "METHOD") (string m)
      (field (codes "REQUEST_URI") (string uri) (field (codes "VERSION") (string v) end))

uri_scan_inside :
    (u acc s : Bytes)
    → All (λ c. above_space c ≡ true) u
    → uri_scan (some acc) (u ++ (b' ' ∷ s)) ≡ (some (acc ++ u), b' ' ∷ s)
unfolding uri_scan
uri_scan_inside [] acc s h = ground (arith, append-nil acc)
uri_scan_inside (c ∷ u) acc s h = rw h.0 (uri_scan_inside u (acc ++ c ∷ []) s h.1 ∙ rw append_assoc)

uri_scan-IsUri : (u s : Bytes) → IsUri u → uri_scan none (u ++ (b' ' ∷ s)) ≡ (some u, b' ' ∷ s)
unfolding uri_scan
uri_scan-IsUri [] s h = absurd (h.1 refl)
uri_scan-IsUri (c ∷ u) s h = ground (arith, uri_scan_inside u (c ∷ []) s h.0.1)

version_scan-name :
    (v : Version) (rest : Bytes)
    → version_scan (b' ' ∷ (codes "HTTP/" ++ (version_name v ++ rest))) ≡ some (version_name v)
unfolding version_scan version_name starts_with
version_scan-name v09 rest = refl
version_scan-name v10 rest = refl
version_scan-name v11 rest = refl
version_scan-name v20 rest = refl

-- From the URI on.
set_uri-print :
    (m u rest : Bytes) (v : Version)
    → IsUri u
    → set_uri
        (field (codes "METHOD") (string m) end)
        (uri_scan none (u ++ (b' ' ∷ (codes "HTTP/" ++ (version_name v ++ rest)))))
      ≡ request_fields m u (version_name v)
unfolding set_uri push_field
set_uri-print m u rest v h = rw (uri_scan-IsUri u _ h) (rw (version_scan-name v rest))

request_method-name :
    (m : Method) (s : Bytes)
    → m ≢ options
    → request_method (method_name m ++ (b' ' ∷ s))
      ≡ some (method_name m, length (method_name m) + 1)
unfolding request_method method_name
request_method-name options s h = absurd (h refl)
request_method-name _ s h = refl

-- A request line of any method but OPTIONS is read as it was written: the method, the URI, which
-- holds no blank, no control character and no byte from 128 on, and the version.
pub parse_request_line-print :
    (m : Method) (uri : Bytes) (v : Version) (rest : Bytes)
    → m ≢ options
    → IsUri uri
    → parse_request_line end (print_request_line m uri v rest)
      ≡ request_fields (method_name m) uri (version_name v)
unfolding parse_request_line print_request_line push_field
parse_request_line-print options uri v rest h u = absurd (h refl)
parse_request_line-print get uri v rest h u = set_uri-print (codes "GET") uri rest v u
parse_request_line-print _ uri v rest h u = set_uri-print _ uri rest v u

-- For OPTIONS the scan begins one byte late, and the URI loses its first byte.
pub parse_request_line_options :
    (c : ℕ) (uri : Bytes) (v : Version) (rest : Bytes)
    → IsUri uri
    → parse_request_line end (print_request_line options (c ∷ uri) v rest)
      ≡ request_fields (codes "OPTIONS") uri (version_name v)
unfolding parse_request_line print_request_line push_field
parse_request_line_options c uri v rest u = set_uri-print (codes "OPTIONS") uri rest v u

version_scan_blank : (s : Bytes) → All (λ c. above_space c ≡ false) s → version_scan s ≡ none
unfolding version_scan
version_scan_blank [] h = refl
version_scan_blank (c ∷ s) h = rw h.0 (version_scan_blank s h.1)

-- Where nothing but blanks and control characters follows the URI, the version is the text
-- "REQUEST_URI".
pub parse_request_line_no_version :
    (uri s : Bytes)
    → IsUri uri
    → All (λ c. above_space c ≡ false) s
    → parse_request_line end (codes "GET " ++ (uri ++ (b' ' ∷ s)))
      ≡ request_fields (codes "GET") uri (codes "REQUEST_URI")
unfolding parse_request_line push_field
parse_request_line_no_version uri s u h =
    rw (uri_scan-IsUri uri s u) (rw (version_scan_blank (b' ' ∷ s) (refl, h)))
