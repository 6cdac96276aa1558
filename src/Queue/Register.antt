-- ===== src/Queue/Register.antt =====
-- The API functions of src/api_queue.c: they set the packet filter up, keep the user's callbacks
-- and start the threads.
pub mod Outcomes
use manet_testbed.Base.{
  ℕ, String, ℤ, pos, minus_one, is_neg, is_zero, u32_max, Bool, true, false, Option, none, some,
  List, [], ◌∷◌, if◌then◌else◌,
}
use manet_testbed.Api.{
  State, CallbackFunction, Plane, in_control, in_data, out, for, Action, system, pthread_create, M,
  Run, done, blocked, pure, gets, modify, and_then, ◌>>=◌, ◌>>◌, Os, call, mutex_lock, mutex_unlock,
}

-- The commands that are run.
abbrev pub queue_control : String
queue_control = "sudo /sbin/iptables -A INPUT -p UDP --dport 269 -j NFQUEUE --queue-num 0"

abbrev pub queue_data : String
queue_data =
    "sudo /sbin/iptables -A INPUT -m iprange --dst-range 192.168.1.1-192.168.1.100 -j NFQUEUE --queue-num 4"

abbrev pub accept_control : String
accept_control = "sudo /sbin/iptables -I OUTPUT -p UDP --dport 269 -j ACCEPT"

abbrev pub queue_outgoing : String
queue_outgoing =
    "sudo /sbin/iptables -A OUTPUT -m iprange --dst-range 192.168.1.1-192.168.1.100 -j NFQUEUE --queue-num 1"

abbrev pub drop_control : String
drop_control = "sudo /sbin/iptables -A FORWARD -p UDP --dport 269 -j DROP"

abbrev pub queue_forwarded : String
queue_forwarded = "sudo /sbin/iptables -A FORWARD -j NFQUEUE --queue-num 2"

abbrev pub flush_rules : String
flush_rules = "/sbin/iptables -F"

abbrev pub enable_forwarding : String
enable_forwarding = "sh -c 'echo 1 > /proc/sys/net/ipv4/ip_forward'"

abbrev pub disable_ipv6 : String
disable_ipv6 = "sh -c 'echo 1 > /proc/sys/net/ipv6/conf/wlan0/disable_ipv6'"

module _ (os : Os) where
  -- `pthread_create` into a thread variable; whether it failed.
  unfoldable pub start_thread : Plane → (ℕ → State → State) → M Bool
  start_thread plane store = do
    failed ← call os (pthread_create plane)
    if is_zero failed then (λ s. done false (store (os.thread_id s.log) s)) else pure true

  -- The failing branches return without unlocking.
  unfoldable pub register_incoming_callback :
      Option CallbackFunction → Option CallbackFunction → M ℕ
  register_incoming_callback control_cb data_cb = do
    mutex_lock
    call os (system queue_control)
    call os (system queue_data)
    control_failed ← elim control_cb [
      | none ↦ pure false
      | some callback ↦ do
        modify (λ s. record s { incoming_control = some callback })
        start_thread in_control (λ t s. record s { in_thread_control = t })
    ]
    if control_failed then pure u32_max else do
      data_failed ← elim data_cb [
        | none ↦ pure false
        | some callback ↦ do
          modify (λ s. record s { incoming_data = some callback })
          start_thread in_data (λ t s. record s { in_thread_data = t })
      ]
      if data_failed then pure u32_max else do mutex_unlock; pure 0

  unfoldable pub register_outgoing_callback : Option CallbackFunction → M ℕ
  register_outgoing_callback cb = do
    mutex_lock
    call os (system accept_control)
    call os (system queue_outgoing)
    elim cb [
      | none ↦ pure u32_max
      | some callback ↦ do
        modify (λ s. record s { outgoing = some callback })
        failed ← start_thread out (λ t s. record s { out_thread = t })
        if failed then pure u32_max else do mutex_unlock; pure 0
    ]

  -- The thread is kept in `out_thread` too.
  unfoldable pub register_forward_callback : Option CallbackFunction → M ℕ
  register_forward_callback cb = do
    mutex_lock
    call os (system drop_control)
    call os (system queue_forwarded)
    elim cb [
      | none ↦ pure u32_max
      | some callback ↦ do
        modify (λ s. record s { forwarded = some callback })
        failed ← start_thread for (λ t s. record s { out_thread = t })
        if failed then pure u32_max else do mutex_unlock; pure 0
    ]

  unfoldable pub initialize_queue : M ℤ
  initialize_queue = do
    modify (λ s. record s {
      incoming_control = none;
      incoming_data = none;
      outgoing = none;
      forwarded = none;
    })
    call os (system flush_rules)
    call os (system enable_forwarding)
    r ← call os (system disable_ipv6)
    pure (if is_neg r then minus_one else pos 0)
