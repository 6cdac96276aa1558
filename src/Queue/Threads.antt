-- ===== src/Queue/Threads.antt =====
-- The thread functions of src/api_queue.c. Each opens its queue and handles what it receives until
-- `recv` gives nothing or an error.
pub mod Loop
use manet_testbed.Base.{
  ℕ, ℤ, is_neg, is_zero, Bool, true, false, List, [], ◌∷◌, if◌then◌else◌, ◌==◌, take, length,
}
use manet_testbed.Api.{
  State, Plane, in_control, in_data, out, for, Action, nfq_open, nfq_create_queue,
  nfq_set_queue_maxlen, nfq_set_mode, nfq_destroy_queue, nfq_close, Reply, failed, message, M, Run,
  done, blocked, pure, gets, and_then, ◌>>=◌, ◌>>◌, Os, call,
}
use manet_testbed.Queue.Handlers.{Packet, Netfilter, User, handle}

abbrev pub queue_len : ℕ
queue_len = 100000

abbrev pub nfqnl_copy_packet : ℕ
nfqnl_copy_packet = 2

-- The size of the threads' `buf`.
abbrev pub packet_buffer : ℕ
packet_buffer = 128000

module _ (os : Os) (nf : Netfilter) (user : User) where
  -- `nfq_handle_packet`: the queue's callback on each packet, in order.
  unfoldable pub handle_all : Plane → List Packet → M (Unit {0})
  handle_all plane [] = pure tt
  handle_all plane (packet ∷ packets) =
      let rest = handle_all plane packets in handle os nf user plane packet >> rest

  -- The `while` loop, over what `recv` gives. When there is nothing left `recv` waits for ever.
  unfoldable pub receive_packets : Plane → List Reply → M (Unit {0})
  receive_packets plane [] = blocked
  receive_packets plane (failed ∷ rest) = pure tt
  receive_packets plane (message bs ∷ rest) =
      let got = take packet_buffer bs in
      let again = handle_all plane (nf.packets got) >> receive_packets plane rest in
      if length got == 0 then pure tt else again

  -- The body that the four functions share, for queue `number`. A failure ends the thread.
  unfoldable pub thread_func : Plane → ℕ → List Reply → M (Unit {0})
  thread_func plane number received = do
    h ← call os (nfq_open plane)
    if is_zero h then pure tt else do
      qh ← call os (nfq_create_queue plane number)
      if is_zero qh then pure tt else do
        call os (nfq_set_queue_maxlen plane queue_len)
        mode ← call os (nfq_set_mode plane nfqnl_copy_packet 0xffff)
        if is_neg mode then pure tt else do
          receive_packets plane received
          call os (nfq_destroy_queue plane)
          call os (nfq_close plane)
          pure tt

  unfoldable pub thread_func_in_control : List Reply → M (Unit {0})
  thread_func_in_control = thread_func in_control 0

  unfoldable pub thread_func_in_data : List Reply → M (Unit {0})
  thread_func_in_data = thread_func in_data 4

  unfoldable pub thread_func_out : List Reply → M (Unit {0})
  thread_func_out = thread_func out 1

  unfoldable pub thread_func_for : List Reply → M (Unit {0})
  thread_func_for = thread_func for 2
