-- ===== src/Protocol/Http/Header.antt =====
-- What the parser reads from the header lines of a request, and where it sees the header end.
use bspd.Common.{
  ℕ, ◌≤◌, ◌<◌, ◌≡◌, ◌≢◌, refl, ◌∙◌, true, false, not, ◌&&◌, none, some, [], ◌∷◌, ◌++◌, arith,
  append-nil, append_assoc, ◌==◌, Bytes, above_space, All,
}
use bspd.Json.Value.{string, Fields, push_field}
use bspd.Protocol.Http.{ok, fault, key_scan, value_scan, parse_request_header}

-- A header line `key: value`.
pub record Header : Type 0 where
  pub key : Bytes
  pub value : Bytes

abbrev pub IsKeyByte : ℕ → Type 0
IsKeyByte c = (above_space c && not (c == b':')) ≡ true

abbrev pub IsValueByte : ℕ → Type 0
IsValueByte c = (32 ≤ c) × (c < 128)

-- A value begins with a visible byte.
abbrev pub IsHeaderValue : Bytes → Type 0
IsHeaderValue [] = ⊥
IsHeaderValue (c ∷ v) = (above_space c ≡ true) × All IsValueByte v

pub record IsHeader (h : Header) : Type 0 where
  pub key_bytes : All IsKeyByte h.key
  pub key_ne_nil : h.key ≢ []
  pub value_bytes : IsHeaderValue h.value

abbrev pub header_line : Header → Bytes
header_line h = h.key ++ (b':' ∷ b' ' ∷ h.value)

key_scan_inside :
    (k acc s : Bytes) → All IsKeyByte k → key_scan (some acc) (k ++ (b':' ∷ s)) ≡ some (acc ++ k, s)
unfolding key_scan
key_scan_inside [] acc s h = ground (arith, append-nil acc)
key_scan_inside (c ∷ k) acc s h = rw h.0 (key_scan_inside k (acc ++ c ∷ []) s h.1 ∙ rw append_assoc)

key_scan-key :
    (k s : Bytes) → All IsKeyByte k → k ≢ [] → key_scan none (k ++ (b':' ∷ s)) ≡ some (k, s)
unfolding key_scan
key_scan-key [] s h ne = absurd (ne refl)
key_scan-key (c ∷ k) s h ne = ground (arith, key_scan_inside k (c ∷ []) s h.1)

value_scan_inside : (v acc : Bytes) → All IsValueByte v → value_scan (some acc) v ≡ some (acc ++ v)
unfolding value_scan
value_scan_inside [] acc h = ground (arith, append-nil acc)
value_scan_inside (c ∷ v) acc h =
    ground (arith, value_scan_inside v (acc ++ c ∷ []) h.1, append_assoc acc (c ∷ []) v)

value_scan-value : (v : Bytes) → IsHeaderValue v → value_scan none (b' ' ∷ v) ≡ some v
unfolding value_scan
value_scan-value [] h = absurd h
value_scan-value (c ∷ v) h = ground (arith, value_scan_inside v (c ∷ []) h.1)

value_scan_blank : (s : Bytes) → All (λ c. above_space c ≡ false) s → value_scan none s ≡ none
unfolding value_scan
value_scan_blank [] h = refl
value_scan_blank (c ∷ s) h = rw h.0 (value_scan_blank s h.1)

module _ (str_toupper : Bytes → Bytes) where
  -- A header line is added under its key in upper case, with its value as it stands.
  pub parse_request_header-line :
      (req : Fields) (h : Header)
      → IsHeader h
      → parse_request_header str_toupper req (header_line h)
        ≡ ok (push_field req (str_toupper h.key) (string h.value))
  unfolding parse_request_header
  parse_request_header-line req h ok_h = ground (
    arith,
    key_scan-key h.key (b' ' ∷ h.value) ok_h.key_bytes ok_h.key_ne_nil,
    value_scan-value h.value ok_h.value_bytes,
  )

  -- A key with no visible byte behind its colon makes a string of the NULL pointer.
  pub parse_request_header_no_value :
      (req : Fields) (key blank : Bytes)
      → All IsKeyByte key
      → key ≢ []
      → All (λ c. above_space c ≡ false) blank
      → parse_request_header str_toupper req (key ++ (b':' ∷ blank)) ≡ fault
  unfolding parse_request_header
  parse_request_header_no_value req key blank k ne h =
      ground (arith, key_scan-key key blank k ne, value_scan_blank blank h)
