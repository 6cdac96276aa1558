-- ===== src/Init.antt =====
-- `InitializeAPI` of src/api.c.
pub mod Outcome
pub mod Failures
use manet_testbed.Base.{ℤ, pos, minus_one, is_zero, if◌then◌else◌}
use manet_testbed.Netlink.{Mem, Netlink}
use manet_testbed.Api.{M, gets, ◌>>=◌, ◌>>◌, Os, check}
use manet_testbed.Iface.{initialize_if}
use manet_testbed.Route.{initialize_route}
use manet_testbed.Send.{initialize_send}
use manet_testbed.Queue.Register.{initialize_queue}

-- The stack buffers are those of `InitializeIF`.
unfoldable pub initialize_api : Os → Netlink → Mem → Mem → M ℤ
initialize_api os nl stack1 stack2 = do
  if_result ← initialize_if os nl stack1 stack2
  check if_result
  route_result ← initialize_route os nl
  check route_result
  send_result ← initialize_send os
  check send_result
  queue_result ← initialize_queue os
  check queue_result
  gets (λ s. if is_zero s.f_err then pos 0 else minus_one)
