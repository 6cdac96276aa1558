-- ===== src/Traffic/Handling.antt =====
-- What a handler does whose steps are taken without a break, wherever the other threads stand.
use manet_testbed.Base.{
  Bool, if◌then◌else◌, ℕ, true, none, some, List, [], ◌∷◌, ◌≡◌, refl, ==_self, if◌then◌else◌,
  Bool-cases, inl, inr,
}
use manet_testbed.Netlink.{Netlink}
use manet_testbed.Api.{
  State, CallbackFunction, Plane, in_control, in_data, out, for, nfq_set_verdict, done, Os, call,
}
use manet_testbed.Queue.Handlers.{
  Packet, Netfilter, Arguments, arguments, id_of, is_own_broadcast, nf_drop,
}
use manet_testbed.Queue.Handlers.Verdicts.{registered, verdict_of}
use manet_testbed.Interleaving.Schedule.{outside}
use manet_testbed.Traffic.{
  Task, unoccupied, tests_own, asks_user, in_callback, rules, first_task, step_task, answer,
  Program, may_call, Step, arrives, answers, proceeds, happens, course,
}

-- The thread is in no call and no send, at a point of a handler, and the variables are as in `s`.
pub record At (i : ℕ) (task : Task) (s : State) (x : Program) : Type 0 where
  pub calls_nothing : x.world.places i ≡ outside
  pub sends_nothing : x.sends i ≡ none
  pub stands : x.tasks i ≡ task
  pub shares : x.world.shared ≡ s

-- The verdict on a packet: an own broadcast is dropped but on the plane of forwarded packets, and what
-- its callback returns, a `uint8_t`, decides on any other.
abbrev pub due_verdict : Plane → (own : Bool) → (ret : ℕ) → ℕ
due_verdict for own ret = verdict_of ret
due_verdict in_control own ret = if own then nf_drop else verdict_of ret
due_verdict in_data own ret = if own then nf_drop else verdict_of ret
due_verdict out own ret = if own then nf_drop else verdict_of ret

-- The four steps of a thread behind the call of a handler.
abbrev pub handler_steps : (i ret : ℕ) → List Step
handler_steps i ret = proceeds i ∷ proceeds i ∷ answers i ret ∷ proceeds i ∷ []

module _ (os : Os) (nl : Netlink) (nf : Netfilter) (i : ℕ) where
  proceeds-At :
      (x : Program) (task next : Task) (s t : State)
      → step_task nf os task s ≡ done next t
      → At i task s x
      → At i next t (happens os nl nf (proceeds i) x)
  unfolding happens
  proceeds-At x task next s t e at =
      rw (at.calls_nothing, at.sends_nothing, at.stands, at.shares, e)
        record {
          calls_nothing = at.calls_nothing;
          sends_nothing = at.sends_nothing;
          stands = rw (==_self i) refl;
          shares = refl;
        }

  answers-At :
      (x : Program) (task : Task) (ret : ℕ) (s : State)
      → may_call outside none task ≡ true
      → At i task s x
      → At i (answer ret task) s (happens os nl nf (answers i ret) x)
  unfolding happens
  answers-At x task ret s may at =
      rw (at.calls_nothing, at.sends_nothing, at.stands, may)
        record {
          calls_nothing = at.calls_nothing;
          sends_nothing = at.sends_nothing;
          stands = rw (==_self i) refl;
          shares = at.shares;
        }

  arrives-At :
      (x : Program) (plane : Plane) (packet : Packet) (p_data : List ℕ) (s : State)
      → packet.payload ≡ some p_data
      → At i unoccupied s x
      → At i
          (first_task nf plane (id_of packet) p_data)
          s
          (happens os nl nf (arrives i plane packet) x)
  unfolding happens
  arrives-At x plane packet p_data s held at =
      rw (at.calls_nothing, at.sends_nothing, at.stands, held)
        record {
          calls_nothing = at.calls_nothing;
          sends_nothing = at.sends_nothing;
          stands = rw (==_self i) refl;
          shares = at.shares;
        }

  -- What the verdict leaves.
  abbrev judged : Plane → (id verdict : ℕ) → State → State
  judged plane id verdict s = record s { log = nfq_set_verdict plane id verdict ∷ s.log }

  rules-At :
      (x : Program) (plane : Plane) (id verdict : ℕ) (s : State)
      → At i (rules plane id verdict) s x
      → At i unoccupied (judged plane id verdict s) (happens os nl nf (proceeds i) x)
  unfolding step_task call
  rules-At x plane id verdict s at = proceeds-At x (rules plane id verdict) unoccupied s _ refl at

  answered-At :
      (x : Program) (plane : Plane) (id : ℕ) (f : CallbackFunction) (args : Arguments) (ret : ℕ)
      (s : State)
      → At i (in_callback plane id f args) s x
      → At i unoccupied
          (judged plane id (verdict_of ret) s)
          (happens os nl nf (proceeds i) (happens os nl nf (answers i ret) x))
  unfolding answer
  answered-At x plane id f args ret s at =
      rules-At _ plane id (verdict_of ret) s
        (answers-At x (in_callback plane id f args) ret s refl at)

  asks-At :
      (x : Program) (plane : Plane) (id : ℕ) (f : CallbackFunction) (args : Arguments) (s : State)
      → registered plane s ≡ some f
      → At i (asks_user plane id args) s x
      → At i (in_callback plane id f args) s (happens os nl nf (proceeds i) x)
  unfolding step_task
  asks-At x plane id f args s set at =
      proceeds-At x (asks_user plane id args) (in_callback plane id f args) s s (rw set refl) at

  module _ (plane : Plane) (f : CallbackFunction) (ret : ℕ) (s : State)
      (set : registered plane s ≡ some f) where
    -- Where the packet is tested, the handler behind `nfq_get_payload`.
    tested_lem :
        (x : Program) (id : ℕ) (p_data : List ℕ)
        → At i (tests_own plane id p_data) s x
        → At i unoccupied
            (judged plane id
              (if is_own_broadcast s (arguments nf p_data) then nf_drop else verdict_of ret)
              s)
            (course os nl nf (handler_steps i ret) x)
    unfolding course step_task answer
    tested_lem x id p_data at = elim (Bool-cases (is_own_broadcast s (arguments nf p_data))) [
      | inl own ↦
          let dropped = rules-At _ plane id nf_drop s (
            proceeds-At x (tests_own plane id p_data) (rules plane id nf_drop) s s (rw own refl)
              at) in
          rw own (
            proceeds-At _ unoccupied unoccupied _ _ refl
              (answers-At _ unoccupied ret _ refl dropped))
      | inr other ↦
          let asks =
            proceeds-At x (tests_own plane id p_data) (asks_user plane id (arguments nf p_data)) s s
              (rw other refl) at in
          rw other (
            answered-At _ plane id f (arguments nf p_data) ret s
              (asks-At _ plane id f (arguments nf p_data) s set asks))
    ]

    -- And where it is not.
    asked_lem :
        (x : Program) (id : ℕ) (args : Arguments)
        → At i (asks_user plane id args) s x
        → At i unoccupied
            (judged plane id (verdict_of ret) s)
            (course os nl nf (handler_steps i ret) x)
    unfolding course step_task
    asked_lem x id args at = answered-At _ plane id f args ret s (
        proceeds-At _ (in_callback plane id f args) (in_callback plane id f args) s s refl
          (asks-At x plane id f args s set at))

  handler_lem :
      (x : Program) (plane : Plane) (packet : Packet) (p_data : List ℕ) (f : CallbackFunction)
      (ret : ℕ) (s : State)
      → registered plane s ≡ some f
      → At i (first_task nf plane (id_of packet) p_data) s x
      → At i unoccupied
          (judged plane
            (id_of packet)
            (due_verdict plane (is_own_broadcast s (arguments nf p_data)) ret)
            s)
          (course os nl nf (handler_steps i ret) x)
  unfolding first_task
  handler_lem x in_control packet p_data f ret s set at =
      tested_lem in_control f ret s set x (id_of packet) p_data at
  handler_lem x in_data packet p_data f ret s set at =
      tested_lem in_data f ret s set x (id_of packet) p_data at
  handler_lem x out packet p_data f ret s set at =
      tested_lem out f ret s set x (id_of packet) p_data at
  handler_lem x for packet p_data f ret s set at =
      asked_lem for f ret s set x (id_of packet) (arguments nf p_data) at

  -- A thread that is in no call and has no packet handles one that has a payload, on a plane with a
  -- callback, and takes its steps without a break, wherever the other threads stand; the callback does
  -- nothing but return. Then one verdict is given, under the packet's plane and id, and nothing else is
  -- changed: NF_DROP for an own broadcast that arrives or leaves, and for any other packet NF_DROP if
  -- the low byte of what the callback returns is 0 and NF_ACCEPT if not. The thread has no packet again.
  pub handle-unbroken :
      (x : Program) (plane : Plane) (packet : Packet) (p_data : List ℕ) (f : CallbackFunction)
      (ret : ℕ)
      → x.world.places i ≡ outside
      → x.sends i ≡ none
      → x.tasks i ≡ unoccupied
      → packet.payload ≡ some p_data
      → registered plane x.world.shared ≡ some f
      → let y = course os nl nf (arrives i plane packet ∷ handler_steps i ret) x in
        let s = x.world.shared in
        (y.world.shared ≡ record s {
          log =
              nfq_set_verdict plane
                (id_of packet)
                (due_verdict plane (is_own_broadcast s (arguments nf p_data)) ret)
              ∷ s.log;
        })
        × (y.tasks i ≡ unoccupied)
  unfolding course
  handle-unbroken x plane packet p_data f ret calls_nothing sends_nothing idle held set =
      let start : At i unoccupied x.world.shared x = record {
        calls_nothing = calls_nothing;
        sends_nothing = sends_nothing;
        stands = idle;
        shares = refl;
      } in
      let y =
        handler_lem _ plane packet p_data f ret x.world.shared set
          (arrives-At x plane packet p_data x.world.shared held start) in
      (y.shares, y.stands)
