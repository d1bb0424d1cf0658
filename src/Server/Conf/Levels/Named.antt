-- ===== src/Server/Conf/Levels/Named.antt =====
-- The chain of tests on a level's name in `parse_conf` of server/conf.c, against a table.
use mathlib.Core.List.{Memᴰ}
use mathlib.Core.List.Memᴰ
use bspd.Common.{
  ◌≡◌, refl, ◌∙◌, Bool, true, false, not, ◌&&◌, ◌||◌, List, [], ◌∷◌, ◌++◌, map, if◌then◌else◌,
  Bytes, codes, ◌==◌, starts_with, starts_with_ci, to_upper, arith, Bool-cases, inl, inr,
}
use bspd.Server.Conf.Levels.{
  Flag, emerg, alert, crit, err, warn, notice, info, debug, Level, flags, all, level_of,
}

abbrev pub severities : List (Bytes × Flag)
severities =
    (codes "emerg", emerg)
    ∷ (codes "alert", alert)
    ∷ (codes "crit", crit)
    ∷ (codes "err", err)
    ∷ (codes "warn", warn)
    ∷ (codes "notice", notice)
    ∷ (codes "info", info)
    ∷ (codes "debug", debug)
    ∷ []

-- Each severity with all the graver ones, which are `seen`.
abbrev pub up_to : List Flag → List (Bytes × Flag) → List (Bytes × Level)
up_to seen [] = []
up_to seen ((name, f) ∷ rest) = (name, flags (seen ++ f ∷ [])) ∷ up_to (seen ++ f ∷ []) rest

abbrev pub level_names : List (Bytes × Level)
level_names = (codes "none", flags []) ∷ (up_to [] severities ++ (codes "all", all) ∷ [])

first_match : Level → List (Bytes × Level) → Bytes → Level
first_match kept [] s = kept
first_match kept ((name, l) ∷ rest) s =
    let later = first_match kept rest s in if starts_with_ci name s then l else later

level_of-first_match : (kept : Level) (s : Bytes) → level_of kept s ≡ first_match kept level_names s
unfolding level_of first_match
level_of-first_match kept s = refl

-- Neither text begins with the other.
abbrev diverge : Bytes → Bytes → Bool
diverge [] q = false
diverge (x ∷ p) [] = false
diverge (x ∷ p) (y ∷ q) = not (x == y) || diverge p q

diverge-starts_with :
    (p q s : Bytes) → diverge p q ≡ true → starts_with p s ≡ true → starts_with q s ≡ false
unfolding starts_with
diverge-starts_with [] q s d h = cc
diverge-starts_with (x ∷ p) [] s d h = cc
diverge-starts_with (x ∷ p) (y ∷ q) [] d h = cc
diverge-starts_with (x ∷ p) (y ∷ q) (z ∷ s) d h = elim (Bool-cases (diverge p q)) [
  | inl e ↦ ground (arith, diverge-starts_with p q s e)
  | inr e ↦ ground arith
]

abbrev apart_from : Bytes → List (Bytes × Level) → Bool
apart_from name [] = true
apart_from name ((other, l) ∷ rest) =
    diverge (map to_upper other) (map to_upper name) && apart_from name rest

abbrev apart : List (Bytes × Level) → Bool
apart [] = true
apart ((name, l) ∷ rest) = apart_from name rest && apart rest

-- A name further on is not reached by a text that begins with `name`, nor the other way round.
apart_from-first_match :
    (table : List (Bytes × Level)) (name other s : Bytes) (l : Level)
    → apart_from name table ≡ true
    → Memᴰ (other, l) table
    → starts_with_ci other s ≡ true
    → starts_with_ci name s ≡ false
unfolding starts_with_ci
apart_from-first_match [] name other s l a m h = absurd (Memᴰ.not-nil m)
apart_from-first_match ((q, k) ∷ table) name other s l a (Memᴰ.head e) h =
    diverge-starts_with (map to_upper q) (map to_upper name) (map to_upper s) (ground arith) cc
apart_from-first_match ((q, k) ∷ table) name other s l a (Memᴰ.tail m) h =
    apart_from-first_match table name other s l (ground arith) m h

first_match-mem :
    (kept : Level) (table : List (Bytes × Level)) (name s : Bytes) (l : Level)
    → apart table ≡ true
    → Memᴰ (name, l) table
    → starts_with_ci name s ≡ true
    → first_match kept table s ≡ l
unfolding first_match
first_match-mem kept [] name s l a m h = absurd (Memᴰ.not-nil m)
first_match-mem kept ((q, k) ∷ table) name s l a (Memᴰ.head e) h = ground arith
first_match-mem kept ((q, k) ∷ table) name s l a (Memᴰ.tail m) h = ground (
  arith,
  apart_from-first_match table q name s l (ground arith) m h,
  first_match-mem kept table name s l (ground arith) m h,
)

level_names-apart : apart level_names ≡ true
unfolding to_upper
level_names-apart = refl

-- The level of a text that begins, in upper or lower case, with a name of the table is the one that
-- stands beside the name: for a severity, that one and all the graver ones.
pub level_of-named :
    (kept : Level) (name s : Bytes) (l : Level)
    → Memᴰ (name, l) level_names
    → starts_with_ci name s ≡ true
    → level_of kept s ≡ l
level_of-named kept name s l m h =
    level_of-first_match kept s ∙ first_match-mem kept level_names name s l level_names-apart m h
