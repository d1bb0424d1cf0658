-- ===== src/Server/Task.antt =====
-- The script tasks of server/server.h and `new_script_task` of server/script.c.
use bspd.Common.{ℕ, Option, none, Bytes}
use bspd.Json.Value.{Object}

abbrev pub Ptr : Type 0
Ptr = ℕ

abbrev pub null_ptr : Ptr
null_ptr = 0

pub data TaskType : Type 0 where
  load raw ctl stream object command gc reload restart : TaskType

-- What `data` points to, by the type of the task.
pub data Payload : Type 0 where
  no_data : Payload
  text : Bytes → Payload
  structured : Object → Payload

-- The fields but `next`. `cmd` is the bit pattern of an `int`, and `follow_up` the client that
-- `_after_disconnect_task` gets, if that function is set.
pub record Task : Type 0 where
  pub type_of : TaskType
  pub func : Option Bytes
  pub ref : ℕ
  pub clt : ℕ
  pub cmd : ℕ
  pub proto : Option Object
  pub payload : Payload
  pub follow_up : Option Ptr

-- The memory pool hands out a block with whatever it holds, and four fields are set.
unfoldable pub new_script_task : Task → TaskType → Task
new_script_task block type = record block { type_of = type; payload = no_data; proto = none }
