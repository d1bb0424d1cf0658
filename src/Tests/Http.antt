-- ===== src/Tests/Http.antt =====
-- Runs of protocol/http.c.
use bspd.Common.{◌≡◌, refl, map, to_upper, true, false, none, some, [], ◌∷◌, arith, Bytes, codes}
use bspd.Json.Value.{Fields, end, field, string, hash}
use bspd.Protocol.Frame.{Bared}
use bspd.Protocol.Http.{ok, parse_request_line, http_bare_data}
use bspd.Protocol.Http.Bare.{http_bare_data-print}
use bspd.Protocol.Http.Header.{Header, IsHeader}
use bspd.Protocol.Http.Lines.{line_test-IsLine, add_headers}
use bspd.Protocol.Http.RequestLine.{
  get, v11, print_request_line, request_fields, parse_request_line-print, IsUri,
}

abbrev pub upper : Bytes → Bytes
upper = map to_upper

abbrev pub host : Header
host = record { key = codes "Host"; value = codes "a.b" }

pub host-IsHeader : IsHeader host
host-IsHeader = record {
  key_bytes = (refl, (refl, (refl, (refl, tt))));
  key_ne_nil = λ e. cc;
  value_bytes = (refl, ((omega arith, omega arith), ((omega arith, omega arith), tt)));
}

abbrev pub uri : Bytes
uri = codes "/x"

pub uri-IsUri : IsUri uri
uri-IsUri = ((refl, (refl, tt)), λ e. cc)

abbrev pub no_frame : Bared
no_frame = record { proto = none; data_of = none; expectation = 7; proced = 9; bared = false }

abbrev host_field : Fields
host_field = field (codes "HOST") (string (codes "a.b")) end

parse_request_line-print_example :
    parse_request_line end (codes "GET /x HTTP/1.1\r\n")
    ≡ request_fields (codes "GET") uri (codes "1.1")
unfolding print_request_line
parse_request_line-print_example =
    parse_request_line-print get uri v11 (codes "\r\n") (λ e. cc) uri-IsUri

http_bare_data-print_example :
    http_bare_data upper no_frame (codes "GET /x HTTP/1.1\r\nHost: a.b\r\n\r\nbody")
    ≡ ok (record no_frame {
      proto = some (
          hash (
            add_headers upper
              (parse_request_line end (codes "GET /x HTTP/1.1\r\nHost: a.b\r\n\r\nbody"))
              (host ∷ [])));
      expectation = 0;
      proced = 30;
      bared = true;
    })
http_bare_data-print_example =
    http_bare_data-print upper no_frame (codes "GET /x HTTP/1.1") (host ∷ []) (codes "body") refl
      (line_test-IsLine (codes "GET /x HTTP/1.1") refl) (host-IsHeader, tt)
