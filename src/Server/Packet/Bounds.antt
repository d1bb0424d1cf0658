-- ===== src/Server/Packet/Bounds.antt =====
-- What `_proc_packet` takes and pushes, whatever the bytes.
use bspd.Common.{◌≡◌, ◌⊎◌, [], ◌∷◌, ◌++◌}
use bspd.Server.Packet.{Conn}
use bspd.Server.Task.{Task}

-- At most one task is pushed, behind the others.
abbrev pub PushesOne : Conn → Conn → Type 0
PushesOne c c' = (c'.tasks ≡ c.tasks) ⊎ ((t : Task) × (c'.tasks ≡ c.tasks ++ t ∷ []))
