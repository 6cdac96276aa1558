-- ===== src/Queue/Register/Outcomes.antt =====
-- What the registrations return and leave behind.
use manet_testbed.Base.{
  ℕ, pos, minus_one, is_neg, is_zero, u32_max, Bool, true, false, Option, none, some, List, ◌∷◌,
  if◌then◌else◌, ◌≡◌, refl, ◌⊎◌, arith,
}
use manet_testbed.Api.{
  State, CallbackFunction, Plane, in_control, in_data, out, for, Action, system, pthread_create, M,
  done, Os, call, mutex_lock, mutex_unlock,
}
use manet_testbed.Api.Laws.{Returns}
use manet_testbed.Queue.Register.{
  start_thread, register_incoming_callback, register_outgoing_callback, register_forward_callback,
  initialize_queue, queue_control, queue_data, accept_control, queue_outgoing, drop_control,
  queue_forwarded, flush_rules, enable_forwarding, disable_ipv6,
}

-- The three registrations, with their arguments.
pub data Registration : Type 0 where
  incoming : (control_cb data_cb : Option CallbackFunction) → Registration
  outgoing forward : (cb : Option CallbackFunction) → Registration

unfoldable pub register : Os → Registration → M ℕ
register os (incoming control_cb data_cb) = register_incoming_callback os control_cb data_cb
register os (outgoing cb) = register_outgoing_callback os cb
register os (forward cb) = register_forward_callback os cb

-- A null callback, which the registrations for one plane refuse.
abbrev pub IsRefused : Registration → Type 0
IsRefused (incoming control_cb data_cb) = ⊥
IsRefused (outgoing cb) = cb ≡ none
IsRefused (forward cb) = cb ≡ none

-- A result with the mutex as that result leaves it: 0 and free, or -1 and still held.
abbrev pub FreedOnSuccess : ℕ → State → Type 0
FreedOnSuccess r t = ((r ≡ 0) × (t.lock ≡ false)) ⊎ ((r ≡ u32_max) × (t.lock ≡ true))

-- A callback that is given, or else the one before.
abbrev pub kept : Option CallbackFunction → Option CallbackFunction → Option CallbackFunction
kept none before = before
kept (some callback) before = some callback

-- The calls with the creation of a thread, if there is a callback for it.
abbrev pub creation : Option CallbackFunction → Plane → List Action → List Action
creation none plane log = log
creation (some callback) plane log = pthread_create plane ∷ log

-- Whether a callback's thread, if there is a callback, is created after the calls of a log.
abbrev pub started : Os → Option CallbackFunction → Plane → List Action → Bool
started os none plane log = true
started os (some callback) plane log = is_zero (os.result (pthread_create plane ∷ log))

-- The calls that set the filter up for each kind of packet, the newest first.
abbrev pub incoming_filtered : State → List Action
incoming_filtered s = system queue_data ∷ system queue_control ∷ s.log

abbrev pub outgoing_filtered : State → List Action
outgoing_filtered s = system queue_outgoing ∷ system accept_control ∷ s.log

abbrev pub forward_filtered : State → List Action
forward_filtered s = system queue_forwarded ∷ system drop_control ∷ s.log

-- How `RegisterIncomingCallback` ends: with 0, where the thread of each given callback is created;
-- or with -1, where one is not.
abbrev pub IncomingRegistered :
    Os → State → (control_cb data_cb : Option CallbackFunction) → ℕ → State → Type 0
IncomingRegistered os s control_cb data_cb r t =
    let first = incoming_filtered s in
    let second = creation control_cb in_control first in
    ((r ≡ 0)
      × (started os control_cb in_control first ≡ true)
      × (started os data_cb in_data second ≡ true)
      × (t.incoming_control ≡ kept control_cb s.incoming_control)
      × (t.incoming_data ≡ kept data_cb s.incoming_data)
      × (t.log ≡ creation data_cb in_data second))
    ⊎ ((r ≡ u32_max)
        × ((started os control_cb in_control first ≡ false)
            ⊎ (started os data_cb in_data second ≡ false)))

-- How a registration that keeps the thread in `out_thread` ends, after the calls `log'`.
abbrev pub ThreadKept : Os → State → List Action → ℕ → State → Type 0
ThreadKept os s log' r t =
    ((is_zero (os.result log') ≡ true) × (r ≡ 0) × (t.out_thread ≡ os.thread_id log'))
    ⊎ ((is_zero (os.result log') ≡ false) × (r ≡ u32_max) × (t.out_thread ≡ s.out_thread))

-- How `RegisterOutgoingCallback` of a function ends.
abbrev pub OutgoingRegistered : Os → State → CallbackFunction → ℕ → State → Type 0
OutgoingRegistered os s callback r t =
    let log' = pthread_create out ∷ outgoing_filtered s in
    (t.outgoing ≡ some callback) × (t.log ≡ log') × ThreadKept os s log' r t

-- How `RegisterForwardCallback` of a function ends.
abbrev pub ForwardRegistered : Os → State → CallbackFunction → ℕ → State → Type 0
ForwardRegistered os s callback r t =
    let log' = pthread_create for ∷ forward_filtered s in
    (t.forwarded ≡ some callback)
    × (t.log ≡ log')
    × (t.forward_thread ≡ s.forward_thread)
    × ThreadKept os s log' r t

-- How the registration of a null callback for one plane ends.
abbrev pub NullRefused : State → ℕ → State → Type 0
NullRefused s r t =
    (r ≡ u32_max)
    × (t.lock ≡ true)
    × (t.outgoing ≡ s.outgoing)
    × (t.forwarded ≡ s.forwarded)
    × ((t.log ≡ outgoing_filtered s) ⊎ (t.log ≡ forward_filtered s))

module _ (os : Os) (s : State) (free : s.lock ≡ false) where
  -- Every registration that finds the mutex free returns: 0 with the mutex free again, or -1 with
  -- the mutex still held.
  pub register-FreedOnSuccess : (g : Registration) → Returns FreedOnSuccess (register os g s)
  unfolding register register_incoming_callback register_outgoing_callback register_forward_callback
      start_thread call mutex_lock mutex_unlock
  register-FreedOnSuccess (incoming none none) = ground arith
  register-FreedOnSuccess (incoming none (some d)) = ground arith
  register-FreedOnSuccess (incoming (some c) none) = ground arith
  register-FreedOnSuccess (incoming (some c) (some d)) = ground arith
  register-FreedOnSuccess (outgoing none) = ground arith
  register-FreedOnSuccess (outgoing (some c)) = ground arith
  register-FreedOnSuccess (forward none) = ground arith
  register-FreedOnSuccess (forward (some c)) = ground arith

  -- `RegisterOutgoingCallback` and `RegisterForwardCallback` of a null pointer, with the mutex free,
  -- return -1, keep both callbacks as they were and start no thread; the mutex stays held, and the
  -- two filter rules are set up.
  pub register-NullRefused :
      (g : Registration) → IsRefused g → Returns (NullRefused s) (register os g s)
  unfolding register register_outgoing_callback register_forward_callback call mutex_lock
  register-NullRefused (incoming c d) h = absurd h
  register-NullRefused (outgoing cb) h = ground arith
  register-NullRefused (forward cb) h = ground arith

  -- `RegisterIncomingCallback`, with the mutex free, returns: 0 where the thread of each callback
  -- that is given is created, and -1 where one is not. If it returns 0 those callbacks are kept, one
  -- that is null leaves the one before, and the calls made are the two filter rules and then the
  -- creations of the threads, the control thread's first.
  register_incoming_callback_lem :
      (control_cb data_cb : Option CallbackFunction)
      → Returns
          (IncomingRegistered os s control_cb data_cb)
          (register_incoming_callback os control_cb data_cb s)
  unfolding register_incoming_callback start_thread call mutex_lock mutex_unlock
  register_incoming_callback_lem none none = ground arith
  register_incoming_callback_lem none (some d) = ground arith
  register_incoming_callback_lem (some c) none = ground arith
  register_incoming_callback_lem (some c) (some d) = ground arith

  -- `RegisterOutgoingCallback` of a function, with the mutex free, keeps it and starts the thread
  -- for the outgoing queue, after it has let control traffic through and queued the rest. It returns
  -- 0 and keeps the new thread where the thread is created, and returns -1 and keeps the old one
  -- where it is not.
  register_outgoing_callback_lem :
      (callback : CallbackFunction)
      → Returns (OutgoingRegistered os s callback) (register_outgoing_callback os (some callback) s)
  unfolding register_outgoing_callback start_thread call mutex_lock mutex_unlock
  register_outgoing_callback_lem callback = ground arith

  -- `RegisterForwardCallback` of a function, with the mutex free, keeps it and starts the thread for
  -- the forward queue, after it has dropped control traffic and queued the rest. Where the thread is
  -- created it returns 0, and the new thread replaces the one for the outgoing queue in
  -- `out_thread`; where it is not it returns -1. `forward_thread` stays as it was.
  pub register_forward_callback_lem :
      (callback : CallbackFunction)
      → Returns (ForwardRegistered os s callback) (register_forward_callback os (some callback) s)
  unfolding register_forward_callback start_thread call mutex_lock mutex_unlock
  register_forward_callback_lem callback = ground arith

-- The three commands of `InitializeQueue`, the newest first.
abbrev pub commands : State → List Action
commands s = system disable_ipv6 ∷ system enable_forwarding ∷ system flush_rules ∷ s.log

-- `InitializeQueue` returns, clears the four callbacks and runs its three commands. Two systems
-- whose last command has the same result give the same run, whatever the results of the other two:
-- it returns -1 exactly if the last one fails.
pub initialize_queue_lem :
    (os os' : Os) (s : State)
    → os.result (commands s) ≡ os'.result (commands s)
    → (initialize_queue os s ≡ initialize_queue os' s)
      × (initialize_queue os s
          ≡ done (if is_neg (os.result (commands s)) then minus_one else pos 0) (record s {
            incoming_control = none;
            incoming_data = none;
            outgoing = none;
            forwarded = none;
            log = commands s;
          }))
unfolding initialize_queue call
initialize_queue_lem os os' s e = (rw e refl, refl)
