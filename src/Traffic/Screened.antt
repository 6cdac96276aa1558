-- ===== src/Traffic/Screened.antt =====
-- Own broadcasts and the callbacks, in every course of the program.
use manet_testbed.Base.{
  ℕ, Bool, true, false, Option, none, some, List, ◌≡◌, refl, ap, ◌∙◌, inl, inr, ◌==◌, Bool-cases,
  if◌then◌else◌,
}
use manet_testbed.Netlink.{Netlink}
use manet_testbed.Api.{
  State, CallbackFunction, Plane, in_control, in_data, out, for, Os, call, ntop,
}
use manet_testbed.Queue.Handlers.{Netfilter, Arguments, is_own_broadcast, arguments, id_of, nf_drop}
use manet_testbed.Queue.Handlers.Verdicts.{registered}
use manet_testbed.System.Calm.{same}
use manet_testbed.Traffic.Invariant.{IsInvariant, Any, course-any}
use manet_testbed.Traffic.{
  SendPoint, reads_broadcast, names_address, reads_text, sends_to, makes_result, step_send, Task,
  unoccupied, tests_own, asks_user, in_callback, rules, enter_callback, first_task, step_task,
  answer, Program, update, Step, send_on, task_on, course, idle,
}
use manet_testbed.Traffic.Spared.{runs-Spares, begins-shared}

-- `s` is the state at first.
module _ (s : State) where
  -- Packets on the planes that are tested are no broadcasts of this node's own.
  abbrev IsForeign : Plane → Arguments → Type 0
  IsForeign plane args = same plane for ≡ false → is_own_broadcast s args ≡ false

  abbrev IsScreened : Task → Type 0
  IsScreened (asks_user plane id args) = IsForeign plane args
  IsScreened (in_callback plane id callback args) = IsForeign plane args
  IsScreened _ = Unit {0}

  record Screened (x : Program) : Type 0 where
    pub same_broadcast : x.world.shared.broadcast_ip ≡ s.broadcast_ip
    pub same_local : x.world.shared.local_ip ≡ s.local_ip
    pub screened : (j : ℕ) → IsScreened (x.tasks j)

  -- What leaves the packets and the addresses alone.
  aside-Screened :
      (x y : Program)
      → y.tasks ≡ x.tasks
      → y.world.shared.broadcast_ip ≡ x.world.shared.broadcast_ip
      → y.world.shared.local_ip ≡ x.world.shared.local_ip
      → Screened x
      → Screened y
  aside-Screened x y tasks broadcast local v = record {
    same_broadcast = broadcast ∙ v.same_broadcast;
    same_local = local ∙ v.same_local;
    screened = λ j. rw tasks (v.screened j);
  }

  -- A thread goes on with its packet.
  moved-Screened :
      (x y : Program) (i : ℕ) (task : Task)
      → y.tasks ≡ update i task x.tasks
      → y.world.shared.broadcast_ip ≡ x.world.shared.broadcast_ip
      → y.world.shared.local_ip ≡ x.world.shared.local_ip
      → IsScreened task
      → Screened x
      → Screened y
  moved-Screened x y i task tasks broadcast local h v = record {
    same_broadcast = broadcast ∙ v.same_broadcast;
    same_local = local ∙ v.same_local;
    screened = λ j. elim (Bool-cases (j == i)) [
      | inl here ↦ rw (tasks, here) h
      | inr elsewhere ↦ rw (tasks, elsewhere) (v.screened j)
    ];
  }

  tested-Screened :
      (own : Bool) (plane : Plane) (id : ℕ) (args : Arguments)
      → is_own_broadcast s args ≡ own
      → IsScreened (if own then rules plane id nf_drop else asks_user plane id args)
  tested-Screened true plane id args e = tt
  tested-Screened false plane id args e = λ tested. e

  own-same :
      (t : State) (args : Arguments)
      → t.broadcast_ip ≡ s.broadcast_ip
      → t.local_ip ≡ s.local_ip
      → is_own_broadcast s args ≡ is_own_broadcast t args
  unfolding is_own_broadcast
  own-same t args broadcast local = cc

  first_task-Screened :
      (nf : Netfilter) (plane : Plane) (id : ℕ) (bs : List ℕ)
      → IsScreened (first_task nf plane id bs)
  unfolding first_task
  first_task-Screened nf in_control id bs = tt
  first_task-Screened nf in_data id bs = tt
  first_task-Screened nf out id bs = tt
  first_task-Screened nf for id bs = λ tested. cc

  answer-Screened : (ret : ℕ) (task : Task) → IsScreened task → IsScreened (answer ret task)
  unfolding answer
  answer-Screened ret unoccupied h = tt
  answer-Screened ret (tests_own plane id p_data) h = tt
  answer-Screened ret (asks_user plane id args) h = h
  answer-Screened ret (in_callback plane id callback args) h = tt
  answer-Screened ret (rules plane id verdict) h = tt

  module _ (os : Os) (nl : Netlink) (nf : Netfilter) where
    task_on-Screened :
        (x : Program) (i : ℕ) (task : Task)
        → x.tasks i ≡ task
        → Screened x
        → Screened (task_on i (step_task nf os task x.world.shared) x)
    unfolding step_task call
    task_on-Screened x i unoccupied e v = moved-Screened x _ i unoccupied refl refl refl tt v
    task_on-Screened x i (tests_own plane id p_data) e v =
        moved-Screened x _ i _ refl refl refl
          (tested-Screened _ plane id (arguments nf p_data)
            (own-same x.world.shared (arguments nf p_data) v.same_broadcast v.same_local))
          v
    task_on-Screened x i (asks_user plane id args) e v =
        asked (registered plane x.world.shared) (rw e at (v.screened i))
      where
        asked :
            (cb : Option CallbackFunction)
            → IsForeign plane args
            → Screened (task_on i (enter_callback plane id args cb x.world.shared) x)
        asked none h = aside-Screened x _ refl refl refl v
        asked (some callback) h =
            moved-Screened x _ i (in_callback plane id callback args) refl refl refl h v
    task_on-Screened x i (in_callback plane id callback args) e v =
        moved-Screened x _ i (in_callback plane id callback args) refl refl refl
          (rw e at (v.screened i)) v
    task_on-Screened x i (rules plane id verdict) e v =
        moved-Screened x _ i unoccupied refl refl refl tt v

    send_on-Screened :
        (x : Program) (i : ℕ) (p : SendPoint)
        → Screened x
        → Screened (send_on i (step_send os p x.world.shared) x)
    unfolding step_send ntop call
    send_on-Screened x i (reads_broadcast msg_buf size) v = aside-Screened x _ refl refl refl v
    send_on-Screened x i (names_address a msg_buf size) v = aside-Screened x _ refl refl refl v
    send_on-Screened x i (reads_text msg_buf size) v = aside-Screened x _ refl refl refl v
    send_on-Screened x i (sends_to a msg_buf size) v = aside-Screened x _ refl refl refl v
    send_on-Screened x i (makes_result r) v = aside-Screened x _ refl refl refl v

    Screened-IsInvariant : IsInvariant os nl nf Any Screened
    Screened-IsInvariant = record {
      by_call = λ x i c v.
          let same = begins-shared os nl x.world i c in
          aside-Screened x _ refl (ap (λ (t : State). t.broadcast_ip) same)
            (ap (λ (t : State). t.local_ip) same) v;
      by_departure = λ x i d allowed free v. aside-Screened x _ refl refl refl v;
      by_arrival = λ x i plane packet bs allowed idle v.
          moved-Screened x _ i _ refl refl refl (first_task-Screened nf plane (id_of packet) bs) v;
      by_answer = λ x i ret v.
          moved-Screened x _ i _ refl refl refl (answer-Screened ret (x.tasks i) (v.screened i)) v;
      by_send = λ x i p e v. send_on-Screened x i p v;
      by_task = λ x i task e at v. task_on-Screened x i task e v;
      by_run = λ x i v. let h = runs-Spares os nl x.world i in aside-Screened x _ refl h.1 h.4 v;
      by_crash = λ x i at v. aside-Screened x _ refl refl refl v;
    }

    -- Threads that are in no call and have no packet at first make the calls that take the mutex, send,
    -- and handle packets, in any order of their steps. A callback that is called for a packet that
    -- arrives or leaves is never given a broadcast of this node's own, by the addresses at first.
    pub course-IsForeign :
        (count : ℕ) (ms : List Step) (i : ℕ) (plane : Plane) (id : ℕ) (f : CallbackFunction)
        (args : Arguments)
        → (course os nl nf ms (idle count s)).tasks i ≡ in_callback plane id f args
        → same plane for ≡ false
        → is_own_broadcast s args ≡ false
    course-IsForeign count ms i plane id f args asked tested =
        let start : Screened (idle count s) = record {
          same_broadcast = refl;
          same_local = refl;
          screened = λ j. tt;
        } in
        let v = course-any os nl nf Screened Screened-IsInvariant ms (idle count s) start in
        (rw asked at (v.screened i)) tested
