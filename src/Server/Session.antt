-- ===== src/Server/Session.antt =====
-- `BSPD_SESSION` of server/server.h. A session id is the text up to its NUL; the joined list is the
-- part of the array that is in use, `joined_list_size` its capacity, 0 for the NULL pointer.
use bspd.Common.{ℕ, Bool, List, Bytes}
use bspd.Server.Task.{Ptr}

pub record Session : Type 0 where
  pub session_id : Bytes
  pub session_id_int : ℕ
  pub connect_time : ℕ
  pub login_time : ℕ
  pub last_active : ℕ
  pub serialize_type : ℕ
  pub compress_type : ℕ
  pub bind : Ptr
  pub logged : Bool
  pub reported : Bool
  pub joined_list : List Ptr
  pub joined_list_size : ℕ
