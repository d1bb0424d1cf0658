-- ===== src/Server/Input/Request.antt =====
-- Requests with no body, as a client writes them for protocol/http.c.
use bspd.Common.{
  ◌-◌, ◌≡◌, ◌≢◌, refl, sym, ap, ◌∙◌, true, List, [], ◌∷◌, ◌++◌, append_assoc, arith, Bytes,
  above_space, codes, length, length-append, drop, drop-append_self, All,
}
use bspd.Protocol.Http.Header.{Header, IsHeader, header_line}
use bspd.Protocol.Http.RequestLine.{
  Method, options, get, head, post, put, delete, trace, connect, method_name, Version, v09, v10,
  v11, v20, version_name, IsUri, print_request_line,
}
use bspd.Protocol.Http.Lines.{line_test-IsLine, All-append, IsLineByte, crlf, print_headers}

pub record Request : Type 0 where
  pub method : Method
  pub uri : Bytes
  pub version : Version
  pub headers : List Header

pub record IsRequest (r : Request) : Type 0 where
  pub not_options : r.method ≢ options
  pub uri_is : IsUri r.uri
  pub headers_are : All IsHeader r.headers

abbrev pub line_of : Request → Bytes → Bytes
line_of r rest = print_request_line r.method r.uri r.version rest

-- A request, with no body, and what follows it.
abbrev pub print_request : Request → Bytes → Bytes
print_request r rest = line_of r (crlf (print_headers r.headers rest))

abbrev pub print_requests : List Request → Bytes
print_requests [] = []
print_requests (r ∷ rs) = print_request r (print_requests rs)

pub line_of-append : (r : Request) (rest : Bytes) → line_of r [] ++ rest ≡ line_of r rest
unfolding print_request_line
line_of-append r rest = simp append_assoc refl

print_headers-append :
    (hs : List Header) (rest : Bytes) → print_headers hs [] ++ rest ≡ print_headers hs rest
print_headers-append [] rest = refl
print_headers-append (h ∷ hs) rest =
    append_assoc (header_line h) (crlf (print_headers hs [])) rest
    ∙ ap (λ s. header_line h ++ crlf s) (print_headers-append hs rest)

pub print_request-append :
    (r : Request) (rest : Bytes) → print_request r [] ++ rest ≡ print_request r rest
unfolding print_request_line
print_request-append r rest = simp (append_assoc, print_headers-append) refl

pub print_request-length :
    (r : Request) (rest : Bytes)
    → length (print_request r rest) - length rest ≡ length (print_request r [])
print_request-length r rest =
    omega (arith, length-append (print_request r []) rest, ap length (print_request-append r rest))

pub drop-print_request :
    (r : Request) (rest : Bytes)
    → drop (length (print_request r rest) - length rest) (print_request r rest) ≡ rest
drop-print_request r rest =
    ap (λ n. drop n (print_request r rest)) (print_request-length r rest)
    ∙ ap (drop (length (print_request r []))) (sym (print_request-append r rest))
    ∙ drop-append_self (print_request r []) rest

append_ne : (s t : Bytes) → t ≢ [] → s ++ t ≢ []
append_ne [] t h e = h e
append_ne (c ∷ s) t h e = cc

pub print_request_ne : (r : Request) (rest : Bytes) → print_request r rest ≢ []
unfolding print_request_line
print_request_ne r rest = append_ne (method_name r.method) _ (λ e. cc)

uri-IsLine : (u : Bytes) → All (λ c. above_space c ≡ true) u → All IsLineByte u
uri-IsLine [] h = tt
uri-IsLine (c ∷ u) h = ((ground arith, ground arith), uri-IsLine u h.1)

method-IsLine : (m : Method) → All IsLineByte (method_name m)
unfolding method_name
method-IsLine options = line_test-IsLine (codes "OPTIONS") refl
method-IsLine get = line_test-IsLine (codes "GET") refl
method-IsLine head = line_test-IsLine (codes "HEAD") refl
method-IsLine post = line_test-IsLine (codes "POST") refl
method-IsLine put = line_test-IsLine (codes "PUT") refl
method-IsLine delete = line_test-IsLine (codes "DELETE") refl
method-IsLine trace = line_test-IsLine (codes "TRACE") refl
method-IsLine connect = line_test-IsLine (codes "CONNECT") refl

version-IsLine : (v : Version) → All IsLineByte (version_name v)
unfolding version_name
version-IsLine v09 = line_test-IsLine (codes "0.9") refl
version-IsLine v10 = line_test-IsLine (codes "1.0") refl
version-IsLine v11 = line_test-IsLine (codes "1.1") refl
version-IsLine v20 = line_test-IsLine (codes "2.0") refl

pub line_of-IsLine : (r : Request) → IsRequest r → All IsLineByte (line_of r [])
unfolding print_request_line
line_of-IsLine r h = All-append IsLineByte (method_name r.method) _ (method-IsLine r.method) (
  (omega arith, omega arith),
  All-append IsLineByte r.uri _ (uri-IsLine r.uri h.uri_is.0) (
    (omega arith, omega arith),
    All-append IsLineByte (codes "HTTP/") _ (line_test-IsLine (codes "HTTP/") refl)
        (All-append IsLineByte (version_name r.version) [] (version-IsLine r.version) tt),
  ),
)
