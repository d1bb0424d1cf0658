-- ===== src/Json/Encode/Ends.antt =====
-- How far the loop of `_append_string_to_json` of serialization/json.c moves.
use bspd.Common.{
  ℕ, zero, suc, ◌+◌, ◌≤◌, ◌<◌, ◌≡◌, refl, Bool, true, false, Option, none, some, arith, ltb,
  if◌then◌else◌, Bytes, length, drop, byte_at,
}
use bspd.Json.Encode.{TextLib, Scan, at_end, flush_from, scan_ascii, scan_utf, scan_byte, scan_loop}

flush_from-i : (s : Bytes) (st : Scan) (from to : Option ℕ) → (flush_from s st from to).i ≡ st.i
unfolding flush_from
flush_from-i s st none to = refl
flush_from-i s st (some from) none = refl
flush_from-i s st (some from) (some to) = ground arith

scan_ascii-i : (esc : Option Bytes) (st : Scan) → (scan_ascii esc st).i ≡ st.i
unfolding scan_ascii
scan_ascii-i none st = ground arith
scan_ascii-i (some esc) st = refl

at_end-i : (s : Bytes) (st : Scan) → (at_end s st).i ≡ st.i
at_end-i s st = ground arith

module _ (lib : TextLib) where
  scan_utf-i : (s : Bytes) (st : Scan) → st.i ≤ (scan_utf lib s st).i
  unfolding scan_utf
  scan_utf-i s st = omega (arith, lib.utf8_len_pos (drop st.i s))

  seen-i :
      (s : Bytes) (st : Scan) (ascii : Bool)
      → st.i
        ≤ (if ascii then scan_ascii (lib.escape_char (byte_at s st.i)) st else scan_utf lib s st).i
  seen-i s st true = omega (arith, scan_ascii-i (lib.escape_char (byte_at s st.i)) st)
  seen-i s st false = scan_utf-i s st

  scan_byte-i : (s : Bytes) (st : Scan) → st.i < (scan_byte lib s st).i
  unfolding scan_byte
  scan_byte-i s st =
      let c = byte_at s st.i in
      let seen = if ltb c 0x80 then scan_ascii (lib.escape_char c) st else scan_utf lib s st in
      let ended = at_end s seen in
      omega (
        arith,
        seen-i s st (ltb c 0x80),
        at_end-i s seen,
        flush_from-i s ended ended.normal_start ended.normal_end,
      )

  -- Every round of the loop over a text moves on, whatever the text and the functions of libbsp:
  -- with as many rounds as there are bytes left, the loop has reached the end of the text.
  pub scan_loop-reaches :
      (fuel : ℕ) (s : Bytes) (st : Scan)
      → length s ≤ st.i + fuel
      → length s ≤ (scan_loop lib fuel s st).i
  unfolding scan_loop
  scan_loop-reaches zero s st h = omega arith
  scan_loop-reaches (suc fuel) s st h = ground (
    arith,
    scan_byte-i s st,
    scan_loop-reaches fuel s (scan_byte lib s st) (omega (arith, scan_byte-i s st)),
  )
