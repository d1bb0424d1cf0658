-- ===== src/Server/Status.antt =====
-- The results that the server's functions return: the BSP_RTN_* codes that it uses.
pub data Rtn : Type 0 where
  rtn_success : Rtn
  rtn_invalid : Rtn
  rtn_err_general : Rtn
  rtn_err_memory : Rtn
  rtn_err_thread : Rtn
  rtn_err_io_read : Rtn
  rtn_err_process : Rtn
  rtn_fatal : Rtn
