-- ===== src/Traffic.antt =====
-- The program at large, a step at a time: any number of threads make the calls of src/api_if.c,
-- src/api_route.c and src/api_queue.c that take the mutex, send by src/api_send.c, and handle packets
-- by src/api_queue.c, whose callbacks make calls and send in turn.
pub mod Invariant
pub mod Within
pub mod Monitor
pub mod OneInside
pub mod Routes
pub mod Spared
pub mod Owed
pub mod Delivered
pub mod Owing
pub mod Ruled
pub mod Unbroken
pub mod Handling
pub mod Guarded
pub mod Screened
pub mod Noted
pub mod Justified
pub mod Failing
pub mod Stuck
pub mod Deadlock
use manet_testbed.Base.{
  ℕ, ℤ, pos, minus_one, is_neg, is_zero, Bool, true, false, Option, none, some, List, [], ◌∷◌,
  if◌then◌else◌, ◌||◌, not, ◌==◌, take, u8,
}
use manet_testbed.Netlink.{Netlink}
use manet_testbed.Api.{
  State, CallbackFunction, Plane, in_control, in_data, out, for, sendto, nfq_set_verdict, M, Run,
  done, blocked, fault, out_of_fuel, pure, gets, ◌>>=◌, ◌>>◌, Os, call, ntop,
}
use manet_testbed.Send.Delivery.{datagram}
use manet_testbed.Queue.Handlers.{
  Packet, Netfilter, Arguments, arguments, id_of, is_own_broadcast, nf_drop, nf_accept,
}
use manet_testbed.Queue.Handlers.Verdicts.{registered}
use manet_testbed.Interleaving.{Call}
use manet_testbed.Interleaving.Schedule.{
  Place, outside, waits, inside, leaves, crashed, World, at_rest, place, begins, runs, move,
}

-- The calls that send.
pub data Departure : Type 0 where
  unicast : (dest_address : ℕ) (msg_buf : List ℕ) (size : ℕ) → Departure
  broadcast : (msg_buf : List ℕ) (size : ℕ) → Departure

-- What a thread does next in `send_sock_msg`. `sin_addr` and `r` are its local variables.
pub data SendPoint : Type 0 where
  reads_broadcast : (msg_buf : List ℕ) (size : ℕ) → SendPoint
  names_address : (address : ℕ) (msg_buf : List ℕ) (size : ℕ) → SendPoint
  reads_text : (msg_buf : List ℕ) (size : ℕ) → SendPoint
  sends_to : (sin_addr : ℕ) (msg_buf : List ℕ) (size : ℕ) → SendPoint
  makes_result : (r : ℤ) → SendPoint

pub data SendNext : Type 0 where
  goes_on : SendPoint → SendNext
  has_sent : (result : ℤ) → SendNext

-- The address is `broadcast_ip` where `type` is nonzero, and `dest_address` where it is 0.
unfoldable pub first_send : Departure → SendPoint
first_send (unicast dest_address msg_buf size) = names_address dest_address msg_buf size
first_send (broadcast msg_buf size) = reads_broadcast msg_buf size

module _ (os : Os) where
  -- One step of a send. `inet_pton` reads the static text of `ntop`.
  unfoldable pub step_send : SendPoint → M SendNext
  step_send (reads_broadcast msg_buf size) = do
    broadcast_ip ← gets (λ s. s.broadcast_ip)
    pure (goes_on (names_address broadcast_ip msg_buf size))
  step_send (names_address address msg_buf size) = do
    ntop os address
    pure (goes_on (reads_text msg_buf size))
  step_send (reads_text msg_buf size) = do
    ip ← gets (λ s. s.ip)
    pure (goes_on (sends_to (os.inet_pton ip) msg_buf size))
  step_send (sends_to sin_addr msg_buf size) = do
    sock ← gets (λ s. s.sock)
    r ← call os (sendto sock (datagram sin_addr (take size msg_buf)))
    pure (goes_on (makes_result r))
  step_send (makes_result r) = do
    f_err ← gets (λ s. s.f_err)
    pure (
        has_sent (
          if is_neg (if is_neg r || not (is_zero f_err) then minus_one else r)
          then minus_one
          else pos 0))

-- What a thread does next with a packet: the test for an own broadcast, the call through the
-- callback's pointer, the user's code, the verdict.
pub data Task : Type 0 where
  unoccupied : Task
  tests_own : Plane → (id : ℕ) (p_data : List ℕ) → Task
  asks_user : Plane → (id : ℕ) → Arguments → Task
  in_callback : Plane → (id : ℕ) → CallbackFunction → Arguments → Task
  rules : Plane → (id verdict : ℕ) → Task

-- The call through a function pointer.
abbrev pub enter_callback : Plane → (id : ℕ) → Arguments → Option CallbackFunction → M Task
enter_callback plane id args none = fault
enter_callback plane id args (some callback) = pure (in_callback plane id callback args)

module _ (nf : Netfilter) where
  -- A handler behind `nfq_get_payload`. Forwarded packets are not tested.
  unfoldable pub first_task : Plane → (id : ℕ) → List ℕ → Task
  first_task for id p_data = asks_user for id (arguments nf p_data)
  first_task in_control id p_data = tests_own in_control id p_data
  first_task in_data id p_data = tests_own in_data id p_data
  first_task out id p_data = tests_own out id p_data

  -- One step of a handler. A thread in a callback does what the user's code does.
  unfoldable pub step_task : Os → Task → M Task
  step_task os unoccupied = pure unoccupied
  step_task os (tests_own plane id p_data) = do
    own ← gets (λ s. is_own_broadcast s (arguments nf p_data))
    pure (if own then rules plane id nf_drop else asks_user plane id (arguments nf p_data))
  step_task os (asks_user plane id args) = do
    cb ← gets (registered plane)
    enter_callback plane id args cb
  step_task os (in_callback plane id callback args) = pure (in_callback plane id callback args)
  step_task os (rules plane id verdict) = do
    call os (nfq_set_verdict plane id verdict)
    pure unoccupied

-- The callback of a packet returns.
unfoldable pub answer : (ret : ℕ) → Task → Task
answer ret (in_callback plane id callback args) =
    rules plane id (if u8 ret == 0 then nf_drop else nf_accept)
answer ret task = task

-- Where a thread stands is its place in `world`, its send if it is in one, and its packet.
pub record Program : Type 0 where
  pub world : World
  pub sends : ℕ → Option SendPoint
  pub tasks : ℕ → Task
  -- not variables of the program: the sends called, with their threads, the results that sends
  -- returned, the packets whose handlers were called, and those whose callbacks returned, with what,
  -- each the newest first
  pub departed : List (ℕ × Departure)
  pub sent : List ℤ
  pub arrived : List (Plane × ℕ)
  pub answered : List (Plane × ℕ × ℕ)

abbrev pub update : {A : Type 0} → ℕ → A → (ℕ → A) → ℕ → A
update i a f j = if j == i then a else f j

-- A thread calls a function: it is in no call, and with no packet or in a packet's callback.
abbrev pub may_call : Place → Option SendPoint → Task → Bool
may_call outside none unoccupied = true
may_call outside none (in_callback plane id callback args) = true
may_call _ _ _ = false

-- What may happen next: a thread calls a function that takes the mutex, or one that sends, or the
-- handler of its queue; its callback returns; or it takes a step.
pub data Step : Type 0 where
  calls : (thread : ℕ) → Call → Step
  departs : (thread : ℕ) → Departure → Step
  arrives : (thread : ℕ) → Plane → Packet → Step
  answers : (thread : ℕ) (ret : ℕ) → Step
  proceeds : (thread : ℕ) → Step

abbrev pub note_answer : (ret : ℕ) → Task → List (Plane × ℕ × ℕ) → List (Plane × ℕ × ℕ)
note_answer ret (in_callback plane id callback args) earlier = (plane, id, ret) ∷ earlier
note_answer ret task earlier = earlier

abbrev pub crash : ℕ → Program → Program
crash i x = record x { world = place x.world i crashed }

-- What a step of a send leaves.
abbrev pub send_on : ℕ → Run SendNext → Program → Program
send_on i (done (goes_on p) s) x = record x {
  world = record x.world { shared = s };
  sends = update i (some p) x.sends;
}
send_on i (done (has_sent r) s) x = record x {
  world = record x.world { shared = s };
  sends = update i none x.sends;
  sent = r ∷ x.sent;
}
send_on i (blocked s) x = x
send_on i (fault s) x = crash i x
send_on i (out_of_fuel s) x = crash i x

-- What a step of a handler leaves.
abbrev pub task_on : ℕ → Run Task → Program → Program
task_on i (done task s) x = record x {
  world = record x.world { shared = s };
  tasks = update i task x.tasks;
}
task_on i (blocked s) x = x
task_on i (fault s) x = crash i x
task_on i (out_of_fuel s) x = crash i x

-- A handler is called; where `nfq_get_payload` fails it reads through the uninitialised pointer.
abbrev pub handle_at : Netfilter → Task → ℕ → Plane → Packet → Program → Program
handle_at nf unoccupied i plane packet x = elim packet.payload [
  | none ↦ crash i x
  | some p_data ↦ record x {
    tasks = update i (first_task nf plane (id_of packet) p_data) x.tasks;
    arrived = (plane, id_of packet) ∷ x.arrived;
  }
]
handle_at nf _ i plane packet x = x

module _ (os : Os) (nl : Netlink) (nf : Netfilter) where
  -- A thread's own step: of its send, if it is in one; of its call, if it is in one; and of the
  -- handler that it is in if not.
  abbrev pub proceed : Option SendPoint → Place → Task → ℕ → Program → Program
  proceed (some p) at task i x = send_on i (step_send os p x.world.shared) x
  proceed none outside task i x = task_on i (step_task nf os task x.world.shared) x
  proceed none (waits c) task i x = record x { world = move os nl (runs i) x.world }
  proceed none (inside turn p) task i x = record x { world = move os nl (runs i) x.world }
  proceed none (leaves turn e) task i x = record x { world = move os nl (runs i) x.world }
  proceed none crashed task i x = x

  unfoldable pub happens : Step → Program → Program
  happens (calls i c) x =
      if may_call (x.world.places i) (x.sends i) (x.tasks i)
      then record x { world = move os nl (begins i c) x.world }
      else x
  happens (departs i d) x =
      if may_call (x.world.places i) (x.sends i) (x.tasks i)
      then record x {
        sends = update i (some (first_send d)) x.sends;
        departed = (i, d) ∷ x.departed;
      }
      else x
  happens (arrives i plane packet) x =
      if may_call (x.world.places i) (x.sends i) (x.tasks i)
      then handle_at nf (x.tasks i) i plane packet x
      else x
  happens (answers i ret) x =
      if may_call (x.world.places i) (x.sends i) (x.tasks i)
      then record x {
        tasks = update i (answer ret (x.tasks i)) x.tasks;
        answered = note_answer ret (x.tasks i) x.answered;
      }
      else x
  happens (proceeds i) x = proceed (x.sends i) (x.world.places i) (x.tasks i) i x

  unfoldable pub course : List Step → Program → Program
  course [] x = x
  course (m ∷ ms) x = course ms (happens m x)

-- All threads outside, before any call.
abbrev pub idle : ℕ → State → Program
idle count s = record {
  world = at_rest count s;
  sends = λ i. none;
  tasks = λ i. unoccupied;
  departed = [];
  sent = [];
  arrived = [];
  answered = [];
}
