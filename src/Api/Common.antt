-- ===== src/Api/Common.antt =====
-- src/api.c: the mutex, the error flag, `ntop` and `get_msg`; and the system that they call.
use manet_testbed.Base.{
  ℕ, String, ℤ, pos, minus_one, is_neg, true, false, List, [], ◌∷◌, if◌then◌else◌, take, length,
}
use manet_testbed.Netlink.{Mem, overlay}
use manet_testbed.Api.Globals.{State, Action, Reply, failed, message}
use manet_testbed.Api.Monad.{Run, M, done, blocked, modify}

-- The C library and the kernel. A call's result may depend on every call before it; the call itself
-- is the head of the list.
pub record Os : Type 0 where
  pub result : List Action → ℤ
  pub thread_id : List Action → ℕ
  pub if_nametoindex : List Action → String → ℕ
  pub inet_ntop : ℕ → String
  pub inet_pton : String → ℕ

-- A call into the system: it is recorded, and its result is the system's.
unfoldable pub call : Os → Action → M ℤ
call os a s = let log' = a ∷ s.log in done (os.result log') (record s { log = log' })

-- `pthread_mutex_lock(&lock)`: the mutex is not recursive, so who finds it held waits.
unfoldable pub mutex_lock : M (Unit {0})
mutex_lock s = if s.lock then blocked s else done tt (record s { lock = true })

-- `pthread_mutex_unlock(&lock)`
unfoldable pub mutex_unlock : M (Unit {0})
mutex_unlock s = done tt (record s { lock = false })

unfoldable pub check : ℤ → M (Unit {0})
check val s = done tt (record s { f_err = if is_neg val then pos 1 else s.f_err })

-- `ntop` returns a pointer to its static buffer, so what is read through it is the field `ip`.
unfoldable pub ntop : Os → ℕ → M (Unit {0})
ntop os buf = modify (λ s. record s { ip = os.inet_ntop buf })

abbrev pub buflen : ℕ
buflen = 4096

-- `recvmsg` waits while the kernel has nothing for the socket. A message longer than the buffer is
-- cut to it.
unfoldable pub receive : Mem → State → List Reply → Run (ℤ × Mem)
receive buf s [] = blocked s
receive buf s (failed ∷ rest) = done (minus_one, buf) (record s { inbox = rest })
receive buf s (message bs ∷ rest) =
    let got = take buflen bs in done (pos (length got), overlay got buf) (record s { inbox = rest })

unfoldable pub get_msg : Mem → M (ℤ × Mem)
unfolding receive
get_msg buf s = receive buf s s.inbox
