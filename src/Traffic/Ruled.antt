-- ===== src/Traffic/Ruled.antt =====
-- The packets of a queue that one thread handles, whatever the others do.
use manet_testbed.Base.{
  ℕ, Bool, true, false, Option, none, some, List, ◌++◌, ◌≡◌, refl, ap, ◌∙◌, if◌then◌else◌,
}
use manet_testbed.Netlink.{Netlink}
use manet_testbed.Api.{
  State, CallbackFunction, Plane, in_control, in_data, out, for, Os, call, ntop,
}
use manet_testbed.Queue.Handlers.{Netfilter, Arguments, is_own_broadcast, arguments, id_of, nf_drop}
use manet_testbed.Queue.Handlers.Verdicts.{registered}
use manet_testbed.Traffic.Invariant.{IsInvariant, course-invariant}
use manet_testbed.Traffic.{
  SendPoint, reads_broadcast, names_address, reads_text, sends_to, makes_result, step_send, Task,
  unoccupied, tests_own, asks_user, in_callback, rules, enter_callback, first_task, step_task,
  answer, Program, Step, send_on, task_on, course, idle,
}
use manet_testbed.Traffic.Spared.{verdicts, runs-Spares, begins-shared}
use manet_testbed.Traffic.Owing.{
  ruled, handled, OnlyHandles, MayHandle, OnlyHandles-each, owing, owed, spared-Balanced,
  moved-Balanced, taken-Balanced, kept-Balanced, Balanced,
}

module _ (k : ℕ) (q : Plane) (old : List ℕ) where
  abbrev Kept : Program → Type 0
  Kept = Balanced k q old

  answer-owed : (ret : ℕ) (task : Task) → owed q task ≡ owed q (answer ret task)
  unfolding answer
  answer-owed ret unoccupied = refl
  answer-owed ret (tests_own plane id p_data) = refl
  answer-owed ret (asks_user plane id args) = refl
  answer-owed ret (in_callback plane id callback args) = refl
  answer-owed ret (rules plane id verdict) = refl

  tested-owed :
      (own : Bool) (plane : Plane) (id : ℕ) (args : Arguments)
      → owing q plane id ≡ owed q (if own then rules plane id nf_drop else asks_user plane id args)
  tested-owed true plane id args = refl
  tested-owed false plane id args = refl

  first_task-owed :
      (nf : Netfilter) (plane : Plane) (id : ℕ) (bs : List ℕ)
      → owed q (first_task nf plane id bs) ≡ owing q plane id
  unfolding first_task
  first_task-owed nf in_control id bs = refl
  first_task-owed nf in_data id bs = refl
  first_task-owed nf out id bs = refl
  first_task-owed nf for id bs = refl

  module _ (os : Os) (nl : Netlink) (nf : Netfilter) where
    task_on-Balanced :
        (x : Program) (i : ℕ) (task : Task)
        → x.tasks i ≡ task
        → Kept x
        → Kept (task_on i (step_task nf os task x.world.shared) x)
    unfolding step_task call verdicts
    task_on-Balanced x i unoccupied e v =
        kept-Balanced k q old x _ i unoccupied refl refl refl (ap (owed q) e) v
    task_on-Balanced x i (tests_own plane id p_data) e v =
        kept-Balanced k q old x _ i _ refl refl refl
          (ap (owed q) e
            ∙ tested-owed (is_own_broadcast x.world.shared (arguments nf p_data)) plane id
                (arguments nf p_data))
          v
    task_on-Balanced x i (asks_user plane id args) e v = asked (registered plane x.world.shared)
      where
        asked :
            (cb : Option CallbackFunction)
            → Kept (task_on i (enter_callback plane id args cb x.world.shared) x)
        asked none = spared-Balanced k q old x _ refl refl refl v
        asked (some callback) =
            kept-Balanced k q old x _ i (in_callback plane id callback args) refl refl refl
              (ap (owed q) e) v
    task_on-Balanced x i (in_callback plane id callback args) e v =
        kept-Balanced k q old x _ i (in_callback plane id callback args) refl refl refl
          (ap (owed q) e) v
    task_on-Balanced x i (rules plane id verdict) e v =
        moved-Balanced k q old x _ i unoccupied (owing q plane id) refl refl refl (ap (owed q) e) v

    send_on-Balanced :
        (x : Program) (i : ℕ) (p : SendPoint)
        → Kept x
        → Kept (send_on i (step_send os p x.world.shared) x)
    unfolding step_send ntop call verdicts
    send_on-Balanced x i (reads_broadcast msg_buf size) v =
        spared-Balanced k q old x _ refl refl refl v
    send_on-Balanced x i (names_address a msg_buf size) v =
        spared-Balanced k q old x _ refl refl refl v
    send_on-Balanced x i (reads_text msg_buf size) v = spared-Balanced k q old x _ refl refl refl v
    send_on-Balanced x i (sends_to a msg_buf size) v = spared-Balanced k q old x _ refl refl refl v
    send_on-Balanced x i (makes_result r) v = spared-Balanced k q old x _ refl refl refl v

    Balanced-IsInvariant : IsInvariant os nl nf (MayHandle k q) Kept
    Balanced-IsInvariant = record {
      by_call = λ x i c v.
          spared-Balanced k q old x _ refl refl
            (ap (λ (s : State). verdicts s.log) (begins-shared os nl x.world i c)) v;
      by_departure = λ x i d allowed free v. spared-Balanced k q old x _ refl refl refl v;
      by_arrival = λ x i plane packet bs mine idle v.
          taken-Balanced k q old x _ i (first_task nf plane (id_of packet) bs) plane (id_of packet)
            refl refl refl (first_task-owed nf plane (id_of packet) bs) (ap (owed q) idle) mine v;
      by_answer = λ x i ret v.
          kept-Balanced k q old x _ i (answer ret (x.tasks i)) refl refl refl
            (answer-owed ret (x.tasks i)) v;
      by_send = λ x i p e v. send_on-Balanced x i p v;
      by_task = λ x i task e at v. task_on-Balanced x i task e v;
      by_run = λ x i v. spared-Balanced k q old x _ refl refl (runs-Spares os nl x.world i).3 v;
      by_crash = λ x i at v. spared-Balanced k q old x _ refl refl refl v;
    }

-- Threads that are in no call and have no packet at first make the calls that take the mutex, send,
-- and handle packets, in any order of their steps. Where one thread alone handles the packets of a
-- plane, then while it has no packet at hand, the verdicts given for the plane are one for each packet
-- of the plane that was handled, under its id, in the order in which they were handled.
pub course-ruled :
    (os : Os) (nl : Netlink) (nf : Netfilter) (s : State) (count k : ℕ) (q : Plane) (ms : List Step)
    → OnlyHandles k q ms
    → (course os nl nf ms (idle count s)).tasks k ≡ unoccupied
    → ruled q (verdicts (course os nl nf ms (idle count s)).world.shared.log)
      ≡ handled q (course os nl nf ms (idle count s)).arrived ++ ruled q (verdicts s.log)
course-ruled os nl nf s count k q ms h finished =
    let start : Balanced k q (ruled q (verdicts s.log)) (idle count s) = record {
      only = λ j other. refl;
      balanced = refl;
    } in
    let v =
      course-invariant os nl nf (MayHandle k q) _
        (Balanced-IsInvariant k q (ruled q (verdicts s.log)) os nl nf) (OnlyHandles k q)
        (OnlyHandles-each k q) ms (idle count s) h start in
    rw finished at v.balanced
