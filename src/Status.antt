-- ===== src/Status.antt =====
-- src/kernel/user/status.h: how an API call ends.
pub data Status : Type 0 where
  success out_of_bounds unsupported out_of_memory target_unreachable quota_exceeded : Status
  empty invalid_msg invalid_handle invalid_handle_type invalid_rpc_id : Status
  invalid_universe_order security_violation invalid_mem : Status
