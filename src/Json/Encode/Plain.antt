-- ===== src/Json/Encode/Plain.antt =====
-- What `_append_string_to_json` makes of texts of plain ASCII bytes, which want no escape.
use bspd.Common.{
  ℕ, ◌+◌, ◌<◌, ◌≡◌, ◌≢◌, refl, sym, none, some, [], ◌∷◌, ◌++◌, arith, lt→ltb, Bytes, length,
  length-append, take_all, All, byte_at, byte_at-append, append_assoc, append-nil,
}
use bspd.Json.Encode.{TextLib, Scan, scan_byte, scan_loop, append_string}

abbrev pub IsPlain : TextLib → ℕ → Type 0
IsPlain lib c = (c < 0x80) × (lib.escape_char c ≡ none)

-- In the middle of a run of plain bytes that began with the text.
abbrev inside : ℕ → Bytes → Scan
inside i json = record { i = i; normal_start = some 0; normal_end = none; json = json }

module _ (lib : TextLib) where
  step_inside :
      (s : Bytes) (i : ℕ) (json : Bytes)
      → IsPlain lib (byte_at s i)
      → i + 1 < length s
      → scan_byte lib s (inside i json) ≡ inside (i + 1) json
  unfolding scan_byte
  step_inside s i json p h = ground arith

  step_last :
      (s : Bytes) (i : ℕ) (json : Bytes)
      → IsPlain lib (byte_at s i)
      → 0 < i
      → i + 1 ≡ length s
      → (scan_byte lib s (inside i json)).json ≡ json ++ s
  unfolding scan_byte
  step_last s i json p h e = ground (arith, take_all (i + 1) s)

  step_first :
      (s : Bytes) (json : Bytes)
      → IsPlain lib (byte_at s 0)
      → 1 < length s
      → scan_byte lib s (record { i = 0; normal_start = none; normal_end = none; json = json })
        ≡ inside 1 json
  unfolding scan_byte
  step_first s json p h = ground arith

  scan_loop-inside :
      (pre : Bytes) (c : ℕ) (rest : Bytes) (json : Bytes)
      → 0 < length pre
      → All (IsPlain lib) (c ∷ rest)
      → (scan_loop lib (length (c ∷ rest)) (pre ++ c ∷ rest) (inside (length pre) json)).json
        ≡ json ++ (pre ++ c ∷ rest)
  unfolding scan_loop
  scan_loop-inside pre c [] json h (p, ps) =
      let len = length-append pre (c ∷ []) in
      ground (
        arith,
        byte_at-append pre c [],
        len,
        step_last (pre ++ c ∷ []) (length pre) json (rw (byte_at-append pre c []) p) h
            (omega (arith, len)),
      )
  scan_loop-inside pre c (d ∷ rest) json h (p, ps) =
      let s = pre ++ c ∷ d ∷ rest in
      let len = length-append pre (c ∷ d ∷ rest) in
      let next =
        step_inside s (length pre) json (rw (byte_at-append pre c (d ∷ rest)) p)
          (omega (arith, len)) in
      let len' : length (pre ++ c ∷ []) ≡ length pre + 1 =
        omega (arith, length-append pre (c ∷ [])) in
      let ih = scan_loop-inside (pre ++ c ∷ []) d rest json (omega arith) ps in
      let ih' = rw (append_assoc pre (c ∷ []) (d ∷ rest), len') at ih in
      rw (lt→ltb (length pre) (length s) (omega (arith, len)), next) ih'

  scan_loop_first :
      (c d : ℕ) (rest : Bytes) (json : Bytes)
      → IsPlain lib c
      → All (IsPlain lib) (d ∷ rest)
      → (scan_loop lib
          (length (c ∷ d ∷ rest))
          (c ∷ d ∷ rest)
          (record { i = 0; normal_start = none; normal_end = none; json = json })).json
        ≡ json ++ c ∷ d ∷ rest
  unfolding scan_loop
  scan_loop_first c d rest json p ps =
      rw
        (
          lt→ltb 0 (length (c ∷ d ∷ rest)) (omega arith),
          step_first (c ∷ d ∷ rest) json (unfold byte_at in p) (omega arith),
        )
        (scan_loop-inside (c ∷ []) d rest json (omega arith) ps)

  -- A text of plain bytes is appended as it is, unless it has exactly one byte.
  pub append_string_plain :
      (json s : Bytes) → All (IsPlain lib) s → length s ≢ 1 → append_string lib json s ≡ json ++ s
  unfolding append_string
  append_string_plain json [] p h = sym (append-nil json)
  append_string_plain json (c ∷ []) p h = absurd (h refl)
  append_string_plain json (c ∷ d ∷ rest) (p, ps) h = scan_loop_first c d rest json p ps

  -- A text of one plain byte is dropped: the output is the one for the empty text.
  pub append_string_single :
      (json : Bytes) (c : ℕ) → IsPlain lib c → append_string lib json (c ∷ []) ≡ json
  unfolding append_string scan_byte byte_at
  append_string_single json c p = ground arith

  step_escape :
      (s : Bytes) (i : ℕ) (json esc : Bytes)
      → byte_at s i < 0x80
      → lib.escape_char (byte_at s i) ≡ some esc
      → 0 < i
      → i + 1 ≡ length s
      → (scan_byte lib s (inside i json)).json ≡ (json ++ esc) ++ s
  unfolding scan_byte
  step_escape s i json esc lt h pos e = ground (arith, take_all (i + 1) s)

  scan_loop-inside_escape :
      (pre p : Bytes) (c : ℕ) (json esc : Bytes)
      → 0 < length pre
      → All (IsPlain lib) p
      → c < 0x80
      → lib.escape_char c ≡ some esc
      → (scan_loop lib
          (length (p ++ c ∷ []))
          (pre ++ (p ++ c ∷ []))
          (inside (length pre) json)).json
        ≡ (json ++ esc) ++ (pre ++ (p ++ c ∷ []))
  unfolding scan_loop
  scan_loop-inside_escape pre [] c json esc h ps lt e =
      let s = pre ++ c ∷ [] in
      let len = length-append pre (c ∷ []) in
      let at = byte_at-append pre c [] in
      ground (
        arith,
        len,
        step_escape s (length pre) json esc (rw at lt) (rw at e) h (omega (arith, len)),
      )
  scan_loop-inside_escape pre (d ∷ p) c json esc h (q, ps) lt e =
      let s = pre ++ d ∷ (p ++ c ∷ []) in
      let len = length-append pre (d ∷ (p ++ c ∷ [])) in
      let len_p = length-append p (c ∷ []) in
      let next =
        step_inside s (length pre) json (rw (byte_at-append pre d (p ++ c ∷ [])) q)
          (omega (arith, len, len_p)) in
      let len' : length (pre ++ d ∷ []) ≡ length pre + 1 =
        omega (arith, length-append pre (d ∷ [])) in
      let ih = scan_loop-inside_escape (pre ++ d ∷ []) p c json esc (omega arith) ps lt e in
      let ih' = rw (append_assoc pre (d ∷ []) (p ++ c ∷ []), len') at ih in
      rw (lt→ltb (length pre) (length s) (omega (arith, len)), next) ih'

  -- Where a byte that wants an escape ends a run of plain bytes, its escape comes before the run,
  -- and the byte itself follows unescaped.
  pub append_string_escape :
      (json p : Bytes) (a c : ℕ) (esc : Bytes)
      → All (IsPlain lib) (a ∷ p)
      → c < 0x80
      → lib.escape_char c ≡ some esc
      → append_string lib json (a ∷ (p ++ c ∷ [])) ≡ (json ++ esc) ++ (a ∷ (p ++ c ∷ []))
  unfolding append_string
  append_string_escape json p a c esc (q, ps) lt e = scan_escape json p a c esc q ps lt e
    where
      scan_escape :
          (json p : Bytes) (a c : ℕ) (esc : Bytes)
          → IsPlain lib a
          → All (IsPlain lib) p
          → c < 0x80
          → lib.escape_char c ≡ some esc
          → (scan_loop lib
              (length (a ∷ (p ++ c ∷ [])))
              (a ∷ (p ++ c ∷ []))
              (record { i = 0; normal_start = none; normal_end = none; json = json })).json
            ≡ (json ++ esc) ++ (a ∷ (p ++ c ∷ []))
      scan_escape json p a c esc q ps lt e =
          let s = a ∷ (p ++ c ∷ []) in
          let len = length-append p (c ∷ []) in
          rw
            (
              lt→ltb 0 (length s) (omega arith),
              step_first s json (unfold byte_at in q) (omega (arith, len)),
            )
            (scan_loop-inside_escape (a ∷ []) p c json esc (omega arith) ps lt e)
