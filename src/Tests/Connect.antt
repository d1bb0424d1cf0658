-- ===== src/Tests/Connect.antt =====
-- Runs of the connection code of server/main.c and server/clients.c.
use bspd.Common.{◌≡◌, refl, Option, none, some, [], arith, ◌==◌, if◌then◌else◌}
use bspd.Server.Connect.{Client, State, reg_client, unreg_client}
use bspd.Server.Connect.Leave.{reg_client-unreg_client}
use bspd.Server.Status.{rtn_success}
use bspd.Server.Task.{Ptr, null_ptr}
use bspd.Tests.Clients.{pairs, lobby, world}
use bspd.Tests.Packets.{packet_server}

abbrev pub caller : Client
caller = record { fd = 7; additional = null_ptr; prop = some packet_server }

abbrev pub callers : Ptr → Option Client
callers p = if p == 8 then some caller else none

abbrev pub idle : State pairs
idle = record { world = world; clients = callers; tasks = [] }

reg_client-unreg_client_example :
    (st : State pairs) × (st' : State pairs) × (reg_client pairs 96 1000 8 idle
      ≡ some (rtn_success, st))
    × (st.clients 8 ≡ some (record caller { additional = 96 }))
    × (unreg_client pairs 8 st ≡ some (rtn_success, st'))
    × (st'.world.sessions 96 ≡ none)
    × (st'.world.channels ≡ world.channels)
reg_client-unreg_client_example =
    reg_client-unreg_client pairs idle 96 1000 8 caller lobby (omega arith) (omega arith) refl
      (omega arith) refl
