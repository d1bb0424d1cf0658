-- ===== src/Protocol/Http/Bare.antt =====
-- `http_bare_data` on a whole request, and on one whose header has not ended.
use bspd.Common.{
  ◌+◌, ◌-◌, ◌<◌, ◌≡◌, true, none, some, List, [], ◌∷◌, ◌++◌, arith, Bytes, length, length-append,
  All,
}
use bspd.Json.Value.{hash, Fields, end}
use bspd.Protocol.Frame.{Bared}
use bspd.Protocol.Http.{
  ok, find_header_end, header_fields, parse_request, parse_request_line, http_bare_data, query_data,
}
use bspd.Protocol.Http.Header.{Header, IsHeader, header_line}
use bspd.Protocol.Http.Lines.{
  IsLineByte, crlf, print_headers, headers_size, add_headers, find_crlf-line, find_header_end-line,
  find_header_end-headers, header_lines-headers, length-print_headers,
}

length-le-print_headers :
    (hs : List Header) (body : Bytes) → length hs < length (print_headers hs body)
length-le-print_headers [] body = omega arith
length-le-print_headers (h ∷ hs) body = omega (
  arith,
  length-append (header_line h) (crlf (print_headers hs body)),
  length-le-print_headers hs body,
)

module _ (up : Bytes → Bytes) where
  -- While the header has not ended, the frame is marked as complete, with nothing read and no
  -- request in it.
  pub http_bare_data_unfinished :
      (b : Bared) (s : Bytes)
      → b.proto ≡ none
      → find_header_end s ≡ none
      → http_bare_data up b s ≡ ok (record b { expectation = 0; proced = 0; bared = true })
  unfolding http_bare_data parse_request query_data
  http_bare_data_unfinished b s p e = ground (arith, p, e)

  header_fields-print :
      (line : Bytes) (hs : List Header) (req : Fields) (body : Bytes)
      → All IsLineByte line
      → All IsHeader hs
      → header_fields up (4 + length body) req (line ++ crlf (print_headers hs body))
        ≡ ok (add_headers up req hs)
  unfolding header_fields
  header_fields-print line hs req body h g = ground (
    arith,
    find_crlf-line line (print_headers hs body) h,
    header_lines-headers up hs (length (line ++ crlf (print_headers hs body))) req body g (
        omega (
          arith,
          length-append line (crlf (print_headers hs body)),
          length-le-print_headers hs body,
        )),
  )

  -- A request whose header is complete: the frame is marked as complete, it holds what the first line
  -- and the headers give, and what is read is the header with its blank line, whatever body follows:
  -- if the first line has no carriage return and no NUL, each header's name is not empty and of
  -- visible ASCII with no colon, each value is of printable ASCII and begins with a visible byte,
  -- and the frame has no headers yet.
  pub http_bare_data-print :
      (b : Bared) (line : Bytes) (hs : List Header) (body : Bytes)
      → b.proto ≡ none
      → All IsLineByte line
      → All IsHeader hs
      → let s = line ++ crlf (print_headers hs body) in
        http_bare_data up b s
        ≡ ok (record b {
          proto = some (hash (add_headers up (parse_request_line end s) hs));
          expectation = 0;
          proced = length s - length body;
          bared = true;
        })
  unfolding http_bare_data parse_request query_data
  http_bare_data-print b line hs body p h g =
      let s = line ++ crlf (print_headers hs body) in
      let len : length s - (length line + headers_size hs) ≡ 4 + length body =
        omega (
          arith,
          length-append line (crlf (print_headers hs body)),
          length-print_headers hs body,
        ) in
      let fields = header_fields-print line hs (parse_request_line end s) body h g in
      let at =
        find_header_end-line line _ (headers_size hs) h (find_header_end-headers hs body g) in
      ground (arith, len, rw (← len) at fields, at)
