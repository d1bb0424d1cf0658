-- ===== src/Server/Conf/Levels.antt =====
-- The names of the trace and log levels in `parse_conf` of server/conf.c.
pub mod Named
use bspd.Common.{ℕ, ◌≡◌, List, [], ◌∷◌, if◌then◌else◌, Bytes, codes, take, starts_with_ci, arith}

pub data Flag : Type 0 where
  emerg alert crit err warn notice info debug : Flag

-- A bit set of libbsp's `I_EMERG` and so on, by its members, or `I_ALL`.
pub data Level : Type 0 where
  flags : List Flag → Level
  all : Level

-- The chain of tests, the same for both levels. A text that fits none keeps the level.
unfoldable pub level_of : Level → Bytes → Level
level_of kept s =
    if starts_with_ci (codes "none") s
    then flags []
    else if starts_with_ci (codes "emerg") s
    then flags (emerg ∷ [])
    else if starts_with_ci (codes "alert") s
    then flags (emerg ∷ alert ∷ [])
    else if starts_with_ci (codes "crit") s
    then flags (emerg ∷ alert ∷ crit ∷ [])
    else if starts_with_ci (codes "err") s
    then flags (emerg ∷ alert ∷ crit ∷ err ∷ [])
    else if starts_with_ci (codes "warn") s
    then flags (emerg ∷ alert ∷ crit ∷ err ∷ warn ∷ [])
    else if starts_with_ci (codes "notice") s
    then flags (emerg ∷ alert ∷ crit ∷ err ∷ warn ∷ notice ∷ [])
    else if starts_with_ci (codes "info") s
    then flags (emerg ∷ alert ∷ crit ∷ err ∷ warn ∷ notice ∷ info ∷ [])
    else if starts_with_ci (codes "debug") s
    then flags (emerg ∷ alert ∷ crit ∷ err ∷ warn ∷ notice ∷ info ∷ debug ∷ [])
    else if starts_with_ci (codes "all") s
    then all
    else kept
