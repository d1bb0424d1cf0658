-- ===== src/Protocol/Http.antt =====
-- protocol/http.c: the request parser and the response header. A buffer is its bytes from the
-- scanned position on. `fault` is a use of a NULL pointer.
pub mod RequestLine
pub mod Header
pub mod Lines
pub mod Bare
use bspd.Common.{
  ℕ, zero, suc, ◌+◌, ◌-◌, ◌≤◌, Bool, true, false, not, ◌&&◌, ◌||◌, Option, none, some, List, [],
  ◌∷◌, ◌++◌, ltb, leb, ◌==◌, if◌then◌else◌, Bytes, codes, starts_with, above_space, length, take,
  drop, decimal,
}
use bspd.Protocol.Frame.{Bared}
use bspd.Json.Value.{string, Object, hash, Fields, end, push_field}

pub data Run {ℓ} (A : Type ℓ) : Type ℓ where
  ok : A → Run A
  fault : Run A
  stuck : Run A

infixl 5 ◌>>=◌
abbrev pub ◌>>=◌ : {A B : Type 0} → Run A → (A → Run B) → Run B
ok a >>= f = f a
fault >>= f = fault
stuck >>= f = stuck

-- The name of the request method and the place where the scan for the URI begins.
unfoldable pub request_method : Bytes → Option (Bytes × ℕ)
unfolding starts_with
request_method s =
    if starts_with (codes "OPTIONS ") s
    then some (codes "OPTIONS", 9)
    else if starts_with (codes "GET ") s
    then some (codes "GET", 4)
    else if starts_with (codes "HEAD ") s
    then some (codes "HEAD", 5)
    else if starts_with (codes "POST ") s
    then some (codes "POST", 5)
    else if starts_with (codes "PUT ") s
    then some (codes "PUT", 4)
    else if starts_with (codes "DELETE ") s
    then some (codes "DELETE", 7)
    else if starts_with (codes "TRACE ") s
    then some (codes "TRACE", 6)
    else if starts_with (codes "CONNECT ") s
    then some (codes "CONNECT", 8)
    else none

-- The loop for the URI: `cur` is what was read since `uri_starting`. Gives the URI, if its end was
-- found, and the input from there.
unfoldable pub uri_scan : Option Bytes → Bytes → Option Bytes × Bytes
uri_scan cur [] = (none, [])
uri_scan none (c ∷ s) = uri_scan (if above_space c then some (c ∷ []) else none) s
uri_scan (some u) (c ∷ s) =
    let rest = uri_scan (some (u ++ c ∷ [])) s in if above_space c then rest else (some u, c ∷ s)

http_version : Bytes → Bytes
http_version s =
    if starts_with (codes "HTTP/0.9") s
    then codes "0.9"
    else if starts_with (codes "HTTP/1.0") s
    then codes "1.0"
    else if starts_with (codes "HTTP/1.1") s
    then codes "1.1"
    else if starts_with (codes "HTTP/2.0") s
    then codes "2.0"
    else codes "UNKNOWN"

-- The loop for the version; `none` where it finds no byte above the space.
unfoldable pub version_scan : Bytes → Option Bytes
unfolding http_version starts_with
version_scan [] = none
version_scan (c ∷ s) =
    let rest = version_scan s in if above_space c then some (http_version (c ∷ s)) else rest

-- Where no version is found, the variable `str` still holds the text set last.
version_or : Option Bytes → Bytes → Bytes
version_or none str = str
version_or (some v) str = v

unfoldable pub set_version : Fields → Bytes → Bytes → Fields
unfolding version_or
set_version req str s = push_field req (codes "VERSION") (string (version_or (version_scan s) str))

unfoldable pub set_uri : Fields → Option Bytes × Bytes → Fields
unfolding set_version
set_uri req (none, s) = set_version req (codes "METHOD") s
set_uri req (some uri, s) =
    set_version (push_field req (codes "REQUEST_URI") (string uri)) (codes "REQUEST_URI") s

-- `_parse_http_request_line` on the whole buffer.
unfoldable pub parse_request_line : Fields → Bytes → Fields
unfolding request_method set_uri
parse_request_line req s = elim (request_method s) [
  | none ↦ req
  | some (name, ml) ↦
      set_uri (push_field req (codes "METHOD") (string name)) (uri_scan none (drop ml s))
]

-- The first loop of `_parse_http_request_header`: the key and the input behind the byte that ends
-- it. A colon ends a key that has not begun, too.
unfoldable pub key_scan : Option Bytes → Bytes → Option (Bytes × Bytes)
key_scan cur [] = none
key_scan none (c ∷ s) =
    let rest = key_scan (if above_space c then some (c ∷ []) else none) s in
    if c == b':' then some ([], s) else rest
key_scan (some k) (c ∷ s) =
    let rest = key_scan (some (k ++ c ∷ [])) s in
    if above_space c && not (c == b':') then rest else some (k, s)

-- The second loop: from the first byte above the space to a byte below it (one from 128 on is
-- negative), or to the end of the line.
unfoldable pub value_scan : Option Bytes → Bytes → Option Bytes
value_scan cur [] = cur
value_scan none (c ∷ s) = value_scan (if above_space c then some (c ∷ []) else none) s
value_scan (some v) (c ∷ s) =
    let rest = value_scan (some (v ++ c ∷ [])) s in if ltb c 32 || leb 128 c then some v else rest

-- `strstr(s, "\r\n")`: what stands before the mark and what stands behind it.
unfoldable pub find_crlf : Bytes → Option (Bytes × Bytes)
unfolding starts_with
find_crlf [] = none
find_crlf (c ∷ s) =
    let rest : Option (Bytes × Bytes) = elim (find_crlf s) [
      | none ↦ none
      | some (line, after) ↦ some (c ∷ line, after)
    ] in
    if starts_with (13 ∷ 10 ∷ []) (c ∷ s)
    then some ([], drop 1 s)
    else if c == 0
    then none
    else rest

-- `memmem(data, len, "\r\n\r\n", 4)`: the number of bytes before the mark.
unfoldable pub find_header_end : Bytes → Option ℕ
unfolding starts_with
find_header_end [] = none
find_header_end (c ∷ s) =
    let rest : Option ℕ = elim (find_header_end s) [ none ↦ none | some n ↦ some (suc n) ] in
    if starts_with (13 ∷ 10 ∷ 13 ∷ 10 ∷ []) (c ∷ s) then some 0 else rest

-- What http.c calls in libbsp: `bsp_str_toupper`.
module _ (str_toupper : Bytes → Bytes) where
  -- A key with no value makes a string of the NULL pointer.
  set_header : Fields → Bytes → Option Bytes → Run Fields
  set_header req key none = fault
  set_header req key (some v) = ok (push_field req (str_toupper key) (string v))

  -- `_parse_http_request_header` on the bytes of one line.
  unfoldable pub parse_request_header : Fields → Bytes → Run Fields
  unfolding set_header key_scan value_scan
  parse_request_header req line = elim (key_scan none line) [
    | none ↦ ok req
    | some (key, s) ↦ set_header req key (value_scan none s)
  ]

  -- The loop over the lines of the header. `ending` is the length of the data from
  -- `header_endding` on, so `line_beginning >= header_endding` is a test on lengths.
  unfoldable pub header_lines : ℕ → ℕ → Fields → Bytes → Run Fields
  header_lines zero ending req s = stuck
  header_lines (suc fuel) ending req s = elim (find_crlf s) [
    | none ↦ ok req
    | some (line, after) ↦ parse_request_header req line >>= λ more.
        elim (leb (length after) ending) [
          | true ↦ ok more
          | false ↦ header_lines fuel ending more after
        ]
  ]

  -- From the line behind the request line on; `strstr(data, "\r\n") + 2` is no use if it is NULL.
  unfoldable pub header_fields : ℕ → Fields → Bytes → Run Fields
  header_fields ending req s = elim (find_crlf s) [
    | none ↦ fault
    | some (line, after) ↦ header_lines (length s) ending req after
  ]

  -- `_parse_http_request`: the request as a hash, or nothing if the header has not ended.
  unfoldable pub parse_request : Bared → Bytes → Run Bared
  parse_request b s = elim (find_header_end s) [
    | none ↦ ok b
    | some n ↦ header_fields (length s - n) (parse_request_line end s) s >>= λ req.
        ok (record b { proced = n + 4; proto = some (hash req) })
  ]

  -- "Subsequent data"
  unfoldable pub query_data : Bared → Bytes → Bared
  query_data b s =
      if ltb 0 b.expectation
      then (if leb (b.proced + b.expectation) (length s)
          then record b {
            data_of = some (take b.expectation (drop b.proced s));
            proced = b.proced + b.expectation;
            bared = true;
          }
          else b)
      else record b { bared = true }

  unfoldable pub http_bare_data : Bared → Bytes → Run Bared
  http_bare_data b s = elim b.proto [
    | none ↦ parse_request (record b { expectation = 0; proced = 0 }) s >>= λ r. ok (query_data r s)
    | some req ↦ ok (query_data b s)
  ]

pub record Response : Type 0 where
  pub status : ℕ
  pub version : ℕ
  pub content_length : ℕ

status_line : ℕ → ℕ → Bytes
status_line version status =
    if version == 9
    then codes "HTTP/0.9 " ++ (decimal status ++ codes " STATUS\r\n")
    else if version == 10000
    then codes "HTTP/1.0 " ++ (decimal status ++ codes " STATUS\r\n")
    else if version == 10001
    then codes "HTTP/1.1 " ++ (decimal status ++ codes " STATUS\r\n")
    else if version == 20000
    then codes "HTTP/2.0 " ++ (decimal status ++ codes " STATUS\r\n")
    else []

-- `_build_http_response_header`: the new `packed->data`.
unfoldable pub build_response_header : Response → Bytes
unfolding status_line decimal
build_response_header r =
    status_line r.version r.status
    ++ (codes "Server: BSPD HTTP service\r\n"
        ++ (codes "Content-Length: "
            ++ (decimal r.content_length ++ codes "\r\nConnection: Close\r\n\r\n")))

unfoldable pub http_pack_data : Bared → Bytes → Bared
unfolding build_response_header
http_pack_data b s =
    let resp : Response = record { status = 200; version = 10001; content_length = length s } in
    record b { data_of = some (build_response_header resp ++ s) }
