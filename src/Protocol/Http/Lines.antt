-- ===== src/Protocol/Http/Lines.antt =====
-- The lines of a request: where each ends, where the header ends, and the loop over them.
use bspd.Common.{
  Bool, true, not, ◌&&◌, ◌==◌, ℕ, zero, suc, ◌+◌, ◌≤◌, ◌<◌, ◌≡◌, ◌≢◌, refl, ◌∙◌, some, List, [],
  ◌∷◌, ◌++◌, arith, Bytes, starts_with, length, length-append, All,
}
use bspd.Json.Value.{string, Fields, push_field}
use bspd.Protocol.Http.{ok, find_crlf, find_header_end, parse_request_header, header_lines}
use bspd.Protocol.Http.Header.{
  Header, IsHeader, IsKeyByte, IsValueByte, IsHeaderValue, header_line, parse_request_header-line,
}

-- A byte that may stand in a line: no carriage return, and no NUL, which ends a C string.
abbrev pub IsLineByte : ℕ → Type 0
IsLineByte c = (c ≢ 13) × (c ≢ 0)

-- The test of it.
abbrev pub line_test : Bytes → Bool
line_test [] = true
line_test (c ∷ s) = not (c == 13) && not (c == 0) && line_test s

pub line_test-IsLine : (s : Bytes) → line_test s ≡ true → All IsLineByte s
line_test-IsLine [] h = tt
line_test-IsLine (c ∷ s) h = ((ground arith, ground arith), line_test-IsLine s (ground arith))

abbrev pub crlf : Bytes → Bytes
crlf s = 13 ∷ 10 ∷ s

pub find_crlf-line :
    (line s : Bytes) → All IsLineByte line → find_crlf (line ++ crlf s) ≡ some (line, s)
unfolding find_crlf starts_with
find_crlf-line [] s h = refl
find_crlf-line (c ∷ line) s h = ground (arith, find_crlf-line line s h.1)

pub find_header_end-line :
    (line s : Bytes) (n : ℕ)
    → All IsLineByte line
    → find_header_end s ≡ some n
    → find_header_end (line ++ s) ≡ some (length line + n)
unfolding find_header_end starts_with
find_header_end-line [] s n h e = ground (arith, e)
find_header_end-line (c ∷ line) s n h e = ground (arith, find_header_end-line line s n h.1 e)

find_header_end-crlf :
    (s t : Bytes) (c n : ℕ)
    → s ≡ c ∷ t
    → c ≢ 13
    → find_header_end s ≡ some n
    → find_header_end (crlf s) ≡ some (2 + n)
unfolding find_header_end starts_with
find_header_end-crlf s t c n e h k = ground arith

-- The header lines, the blank line and the body.
abbrev pub print_headers : List Header → Bytes → Bytes
print_headers [] body = crlf body
print_headers (h ∷ hs) body = header_line h ++ crlf (print_headers hs body)

-- The bytes from the end of the request line to the mark of the header's end.
abbrev pub headers_size : List Header → ℕ
headers_size [] = 0
headers_size (h ∷ hs) = 2 + (length (header_line h) + headers_size hs)

abbrev pub add_headers : (Bytes → Bytes) → Fields → List Header → Fields
add_headers up req [] = req
add_headers up req (h ∷ hs) = add_headers up (push_field req (up h.key) (string h.value)) hs

key-IsLine : (k : Bytes) → All IsKeyByte k → All IsLineByte k
key-IsLine [] h = tt
key-IsLine (c ∷ k) h = ((ground arith, ground arith), key-IsLine k h.1)

value-IsLine : (v : Bytes) → All IsValueByte v → All IsLineByte v
value-IsLine [] h = tt
value-IsLine (c ∷ v) h = ((ground arith, ground arith), value-IsLine v h.1)

pub All-append {ℓ κ} :
    {A : Type ℓ} (P : A → Type κ) (xs ys : List A) → All P xs → All P ys → All P (xs ++ ys)
All-append P [] ys hx hy = hy
All-append P (x ∷ xs) ys hx hy = (hx.0, All-append P xs ys hx.1 hy)

line_of_value : (v : Bytes) → IsHeaderValue v → All IsLineByte v
line_of_value [] h = tt
line_of_value (c ∷ v) h = ((ground arith, ground arith), value-IsLine v h.1)

header_line-IsLine : (h : Header) → IsHeader h → All IsLineByte (header_line h)
header_line-IsLine h g =
    All-append IsLineByte h.key (b':' ∷ b' ' ∷ h.value) (key-IsLine h.key g.key_bytes) (
      (omega arith, omega arith),
      ((omega arith, omega arith), line_of_value h.value g.value_bytes),
    )

pub length-print_headers :
    (hs : List Header) (body : Bytes)
    → length (crlf (print_headers hs body)) ≡ headers_size hs + (4 + length body)
length-print_headers [] body = omega arith
length-print_headers (h ∷ hs) body = omega (
  arith,
  length-append (header_line h) (crlf (print_headers hs body)),
  length-print_headers hs body,
)

header_starts :
    (h : Header) (rest : Bytes)
    → IsHeader h
    → (c : ℕ) × (t : Bytes) × (header_line h ++ rest ≡ c ∷ t) × (c ≢ 13)
header_starts h rest g = starts h.key g.key_ne_nil g.key_bytes
  where
    starts :
        (k : Bytes)
        → k ≢ []
        → All IsKeyByte k
        → (c : ℕ) × (t : Bytes) × ((k ++ (b':' ∷ b' ' ∷ h.value)) ++ rest ≡ c ∷ t) × (c ≢ 13)
    starts [] ne b = absurd (ne refl)
    starts (c ∷ k) ne b = (c, (k ++ (b':' ∷ b' ' ∷ h.value)) ++ rest, refl, ground arith)

pub find_header_end-headers :
    (hs : List Header) (body : Bytes)
    → All IsHeader hs
    → find_header_end (crlf (print_headers hs body)) ≡ some (headers_size hs)
find_header_end-headers [] body g = unfold find_header_end starts_with in refl
find_header_end-headers (h ∷ hs) body (g, gs) =
    let tail = crlf (print_headers hs body) in
    let rest =
      find_header_end-line (header_line h) tail (headers_size hs) (header_line-IsLine h g)
        (find_header_end-headers hs body gs) in
    let (c, t, e, ne) = header_starts h tail g in
    find_header_end-crlf (print_headers (h ∷ hs) body) t c
      (length (header_line h) + headers_size hs) e ne rest

header_line_size : (h : Header) → IsHeader h → 2 < length (header_line h)
header_line_size h g = size h.key g.key_ne_nil
  where
    size : (k : Bytes) → k ≢ [] → 2 < length (k ++ (b':' ∷ b' ' ∷ h.value))
    size [] e = absurd (e refl)
    size (c ∷ k) e = omega (arith, length-append k (b':' ∷ b' ' ∷ h.value))

module _ (up : Bytes → Bytes) where
  header_lines_round :
      (fuel ending : ℕ) (req : Fields) (line after : Bytes) (more : Fields)
      → All IsLineByte line
      → parse_request_header up req line ≡ ok more
      → ending < length after
      → header_lines up (suc fuel) ending req (line ++ crlf after)
        ≡ header_lines up fuel ending more after
  unfolding header_lines
  header_lines_round fuel ending req line after more h e lt =
      ground (arith, find_crlf-line line after h, e)

  header_lines_last :
      (fuel ending : ℕ) (req : Fields) (line after : Bytes) (more : Fields)
      → All IsLineByte line
      → parse_request_header up req line ≡ ok more
      → length after ≤ ending
      → header_lines up (suc fuel) ending req (line ++ crlf after) ≡ ok more
  unfolding header_lines
  header_lines_last fuel ending req line after more h e le =
      ground (arith, find_crlf-line line after h, e)

  -- The loop over the lines adds each header in turn, with as many rounds as there are headers,
  -- and one for none.
  pub header_lines-headers :
      (hs : List Header) (fuel : ℕ) (req : Fields) (body : Bytes)
      → All IsHeader hs
      → length hs < fuel
      → header_lines up fuel (4 + length body) req (print_headers hs body)
        ≡ ok (add_headers up req hs)
  header_lines-headers hs zero req body g h = absurd (omega arith)
  header_lines-headers [] (suc fuel) req body g h =
      header_lines_last fuel (4 + length body) req [] body req tt
        (unfold parse_request_header in refl) (omega arith)
  header_lines-headers (h ∷ []) (suc fuel) req body (g, gs) lt =
      header_lines_last fuel (4 + length body) req (header_line h) (crlf body) _
        (header_line-IsLine h g) (parse_request_header-line up req h g) (omega arith)
  header_lines-headers (h ∷ i ∷ hs) (suc fuel) req body (g, gs) lt =
      header_lines_round fuel (4 + length body) req (header_line h) (print_headers (i ∷ hs) body) _
        (header_line-IsLine h g) (parse_request_header-line up req h g)
        (omega (
          arith,
          header_line_size i gs.0,
          length-append (header_line i) (crlf (print_headers hs body)),
          length-print_headers hs body,
        ))
      ∙ header_lines-headers (i ∷ hs) fuel (push_field req (up h.key) (string h.value)) body gs
          (omega arith)
