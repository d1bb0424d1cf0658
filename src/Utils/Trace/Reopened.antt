-- ===== src/Utils/Trace/Reopened.antt =====
-- Which level utils/debug.c names, and what stays in the log.
use bspd.Common.{
  ℕ, zero, suc, ◌+◌, ◌*◌, ◌/◌, ◌%◌, ◌^◌, ◌<◌, ◌≤◌, ◌≡◌, ◌≢◌, refl, sym, ap, ◌∙◌, Bool, true, false,
  Option, none, some, List, [], ◌∷◌, ◌++◌, append-nil, append_assoc, ltb, lt→ltb, if_true, Bytes,
  length, arith,
}
use bspd.Utils.Trace.{
  Trace, level_loop, level_index, name_at, log_names, trace_names, show_trace, LogFile, log_line,
  open_log, write_log, append_log, callback_reopen_log, append_named, with_name, trace_line,
}

-- `n << k`
abbrev pub shifted : ℕ → ℕ → ℕ
shifted zero n = n
shifted (suc k) n = 2 * shifted k n

shifted_pos : (k n : ℕ) → 0 < n → 0 < shifted k n
shifted_pos zero n h = h
shifted_pos (suc k) n h = omega (arith, shifted_pos k n h)

level_loop_even :
    (level fuel idx : ℕ)
    → 0 < level
    → level % 2 ≡ 0
    → level_loop (suc fuel) level idx ≡ level_loop fuel (level / 2) (suc idx)
unfolding level_loop
level_loop_even level fuel idx p e = ground arith

-- The loop finds the lowest bit that is set, if it has the rounds for it.
level_loop_lowest :
    (k fuel m idx : ℕ) → k < fuel → level_loop fuel (shifted k (2 * m + 1)) idx ≡ idx + k
unfolding level_loop
level_loop_lowest k zero m idx h = elim h [ ]
level_loop_lowest zero (suc fuel) m idx h = ground arith
level_loop_lowest (suc k) (suc fuel) m idx h =
    let y = shifted k (2 * m + 1) in
    let half : 2 * y / 2 ≡ y = omega arith in
    let p = shifted_pos k (2 * m + 1) (omega arith) in
    level_loop_even (2 * y) fuel idx (omega arith) (omega arith)
    ∙ ap (λ (n : ℕ). level_loop fuel n (suc idx)) half
    ∙ level_loop_lowest k fuel m (suc idx) (omega arith)
    ∙ omega arith

level_index_lowest :
    (k m : ℕ) → k < 31 → shifted k (2 * m + 1) < 2 ^ 31 → level_index (shifted k (2 * m + 1)) ≡ k
unfolding level_index
level_index_lowest k m h b =
    let level = shifted k (2 * m + 1) in
    if_true (ltb level (2 ^ 31)) (level_loop 31 level 0) 0 (lt→ltb level (2 ^ 31) b)
    ∙ level_loop_lowest k 31 m 0 h
    ∙ omega arith

name_at-ne_none : (xs : List Bytes) (k : ℕ) → k < length xs → name_at xs k ≢ none
unfolding name_at
name_at-ne_none [] k h = elim h [ ]
name_at-ne_none (x ∷ xs) zero h = λ e. cc
name_at-ne_none (x ∷ xs) (suc k) h = name_at-ne_none xs k (omega arith)

name_at-none : (xs : List Bytes) (k : ℕ) → length xs ≤ k → name_at xs k ≡ none
unfolding name_at
name_at-none [] k h = refl
name_at-none (x ∷ xs) zero h = absurd (omega arith)
name_at-none (x ∷ xs) (suc k) h = name_at-none xs k (omega arith)

with_name-ne_none :
    (line : Bytes → Trace → Bytes) (t : Trace) (o : Option Bytes)
    → o ≢ none
    → with_name line t o ≢ none
unfolding with_name
with_name-ne_none line t none h = absurd (h refl)
with_name-ne_none line t (some name) h = λ e. cc

-- A trace is shown if the lowest bit of its level is one of the eight that have names; with a higher
-- one the name is read behind the table.
pub show_trace_lowest :
    (t : Trace) (k m : ℕ)
    → k < 31
    → t.level ≡ shifted k (2 * m + 1)
    → t.level < 2 ^ 31
    → (k < 8 → show_trace t ≢ none) × (8 ≤ k → show_trace t ≡ none)
unfolding show_trace
show_trace_lowest t k m h e b =
    let i : level_index t.level ≡ k = ap level_index e ∙ level_index_lowest k m h (omega arith) in
    (
      λ lo.
          with_name-ne_none trace_line t (name_at trace_names (level_index t.level))
            (λ z. name_at-ne_none trace_names k lo (sym (ap (name_at trace_names) i) ∙ z)),
      λ hi.
          ap (with_name trace_line t) (ap (name_at trace_names) i ∙ name_at-none trace_names k hi),
    )

-- What is logged while the file stays open.
abbrev pub append_all : Bool → List Trace → LogFile → Option LogFile
append_all can_open [] f = some f
append_all can_open (t ∷ ts) f = elim (append_log can_open t f) [
  | none ↦ none
  | some f' ↦ append_all can_open ts f'
]

abbrev pub named_line : Trace → Option Bytes
named_line t = with_name log_line t (name_at log_names (level_index t.level))

-- The traces have names for their levels, and these are their lines.
pub data Lines : List Trace → Bytes → Type 0 where
  no_lines : Lines [] []
  more_lines :
      {t : Trace} {ts : List Trace} {line text : Bytes}
      → named_line t ≡ some line
      → Lines ts text
      → Lines (t ∷ ts) (line ++ text)

append_log_open :
    (can_open : Bool) (t : Trace) (line content : Bytes)
    → named_line t ≡ some line
    → append_log can_open t (record { is_open = true; content = content })
      ≡ some (record { is_open = true; content = content ++ line })
unfolding append_log open_log append_named write_log
append_log_open can_open t line content e =
    ap (append_named (record { is_open = true; content = content })) e

append_log_first :
    (t : Trace) (line content : Bytes)
    → named_line t ≡ some line
    → append_log true t (record { is_open = false; content = content })
      ≡ some (record { is_open = true; content = line })
unfolding append_log open_log append_named write_log
append_log_first t line content e = ap (append_named (record { is_open = true; content = [] })) e

append_all_step :
    (can_open : Bool) (t : Trace) (ts : List Trace) (f f' : LogFile)
    → append_log can_open t f ≡ some f'
    → append_all can_open (t ∷ ts) f ≡ append_all can_open ts f'
append_all_step can_open t ts f f' e = ground (arith, e)

append_all-Lines :
    (can_open : Bool) {ts : List Trace} {text : Bytes} (content : Bytes)
    → Lines ts text
    → append_all can_open ts (record { is_open = true; content = content })
      ≡ some (record { is_open = true; content = content ++ text })
append_all-Lines can_open content no_lines =
    ap (λ (c : Bytes). some (record { is_open = true; content = c })) (sym (append-nil content))
append_all-Lines can_open content (more_lines {t = t} {ts = ts} {line = line} {text = text} e l) =
    append_all_step can_open t ts _ _ (append_log_open can_open t line content e)
    ∙ append_all-Lines can_open (content ++ line) l
    ∙ ap (λ (c : Bytes). some (record { is_open = true; content = c }))
        (append_assoc content line text)

-- As long as the log stays open, each trace adds its line behind the others; the first trace after it
-- was closed, as the signal HUP does, empties the file, so that only the lines since then are left:
-- if all levels have names, and the file can be opened again.
pub append_log-callback_reopen_log :
    (can_open : Bool) (f : LogFile) (ts us : List Trace) (text : Bytes) (u : Trace)
    (us_text : Bytes)
    → f.is_open ≡ true
    → Lines ts text
    → Lines (u ∷ us) us_text
    → (f' : LogFile) × (append_all can_open ts f ≡ some f')
      × (f'.content ≡ f.content ++ text)
      × (append_all true (u ∷ us) (callback_reopen_log f')
          ≡ some (record { is_open = true; content = us_text }))
unfolding callback_reopen_log
append_log-callback_reopen_log can_open f ts us text u us_text o l (more_lines {line = line} e k) =
    (
      record { is_open = true; content = f.content ++ text },
      ap (append_all can_open ts) (ap (λ (b : Bool). record f { is_open = b }) o)
          ∙ append_all-Lines can_open f.content l,
      refl,
      append_all_step true u us _ _ (append_log_first u line (f.content ++ text) e)
          ∙ append_all-Lines true line k,
    )
