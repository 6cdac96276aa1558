-- ===== src/Traffic/Within.antt =====
-- What sends and packets do to the world of the calls that take the mutex: at most they write the text
-- of `ntop`, send a datagram, give a verdict, or crash a thread that is in no such call.
use manet_testbed.Base.{ℕ, String, ℤ, Option, none, some, List, ◌∷◌, ◌≡◌}
use manet_testbed.Netlink.{Netlink}
use manet_testbed.Api.{
  State, CallbackFunction, Plane, Datagram, sendto, nfq_set_verdict, Os, call, ntop,
}
use manet_testbed.Queue.Handlers.{Netfilter}
use manet_testbed.Interleaving.{Call}
use manet_testbed.Interleaving.Schedule.{outside, crashed, World, place, begins, runs, move}
use manet_testbed.Queue.Handlers.Verdicts.{registered}
use manet_testbed.Traffic.Invariant.{IsInvariant, Any, course-any}
use manet_testbed.Traffic.{
  SendPoint, reads_broadcast, names_address, reads_text, sends_to, makes_result, step_send, Task,
  unoccupied, tests_own, asks_user, in_callback, rules, enter_callback, step_task, Program, Step,
  send_on, task_on, course,
}

-- One step of a send or a handler.
pub data Touched (s : State) : State → Type 0 where
  reads : Touched s s
  writes_text : (text : String) → Touched s (record s { ip = text })
  sends : (sock : ℤ) (d : Datagram) → Touched s (record s { log = sendto sock d ∷ s.log })
  gives_verdict :
      (plane : Plane) (id verdict : ℕ)
      → Touched s (record s { log = nfq_set_verdict plane id verdict ∷ s.log })

-- A property of the world that no step breaks.
pub record IsKept (os : Os) (nl : Netlink) (P : World → Type 0) : Type 0 where
  pub by_call : (w : World) (i : ℕ) (c : Call) → P w → P (move os nl (begins i c) w)
  pub by_step : (w : World) (i : ℕ) → P w → P (move os nl (runs i) w)
  pub by_touch : (w : World) (t : State) → Touched w.shared t → P w → P (record w { shared = t })
  pub by_crash : (w : World) (i : ℕ) → w.places i ≡ outside → P w → P (place w i crashed)

module _ (os : Os) (nl : Netlink) (nf : Netfilter) (P : World → Type 0)
    (kept : IsKept os nl P) where
  -- What holds of the world after a run, wherever it stops.
  send_on-kept :
      (i : ℕ) (p : SendPoint) (x : Program)
      → P x.world
      → P (send_on i (step_send os p x.world.shared) x).world
  unfolding step_send ntop call
  send_on-kept i (reads_broadcast msg_buf size) x h = kept.by_touch x.world _ reads h
  send_on-kept i (names_address address msg_buf size) x h =
      kept.by_touch x.world _ (writes_text (os.inet_ntop address)) h
  send_on-kept i (reads_text msg_buf size) x h = kept.by_touch x.world _ reads h
  send_on-kept i (sends_to sin_addr msg_buf size) x h = kept.by_touch x.world _ (sends _ _) h
  send_on-kept i (makes_result r) x h = kept.by_touch x.world _ reads h

  task_on-kept :
      (i : ℕ) (task : Task) (x : Program)
      → x.world.places i ≡ outside
      → P x.world
      → P (task_on i (step_task nf os task x.world.shared) x).world
  unfolding step_task call
  task_on-kept i unoccupied x at h = kept.by_touch x.world _ reads h
  task_on-kept i (tests_own plane id p_data) x at h = kept.by_touch x.world _ reads h
  task_on-kept i (asks_user plane id args) x at h = asked (registered plane x.world.shared)
    where
      asked :
          (cb : Option CallbackFunction)
          → P (task_on i (enter_callback plane id args cb x.world.shared) x).world
      asked none = kept.by_crash x.world i at h
      asked (some callback) = kept.by_touch x.world _ reads h
  task_on-kept i (in_callback plane id callback args) x at h = kept.by_touch x.world _ reads h
  task_on-kept i (rules plane id verdict) x at h =
      kept.by_touch x.world _ (gives_verdict plane id verdict) h

  pub IsKept-IsInvariant : IsInvariant os nl nf Any (λ x. P x.world)
  IsKept-IsInvariant = record {
    by_call = λ x i c h. kept.by_call x.world i c h;
    by_departure = λ x i d allowed free h. h;
    by_arrival = λ x i plane packet p_data allowed idle h. h;
    by_answer = λ x i ret h. h;
    by_send = λ x i p e h. send_on-kept i p x h;
    by_task = λ x i task e at h. task_on-kept i task x at h;
    by_run = λ x i h. kept.by_step x.world i h;
    by_crash = λ x i at h. kept.by_crash x.world i at h;
  }

  pub course-kept : (ms : List Step) (x : Program) → P x.world → P (course os nl nf ms x).world
  course-kept = course-any os nl nf (λ x. P x.world) IsKept-IsInvariant
