-- ===== src/Traffic/Justified.antt =====
-- Verdicts and what the callbacks returned, in every course of the program.
use manet_testbed.Base.{
  ℕ, u8, Bool, true, false, Option, none, some, List, [], ◌∷◌, ◌≡◌, refl, ◌⊎◌, inl, inr, ◌==◌,
  Bool-cases, if◌then◌else◌, ap,
}
use manet_testbed.Netlink.{Netlink}
use manet_testbed.Api.{
  State, CallbackFunction, Plane, in_control, in_data, out, for, Os, call, ntop,
}
use manet_testbed.Queue.Handlers.{Netfilter, Arguments, id_of, nf_drop, nf_accept}
use manet_testbed.Queue.Handlers.Verdicts.{registered}
use manet_testbed.Traffic.Invariant.{IsInvariant, Any, course-any}
use manet_testbed.Traffic.{
  SendPoint, reads_broadcast, names_address, reads_text, sends_to, makes_result, step_send, Task,
  unoccupied, tests_own, asks_user, in_callback, rules, enter_callback, first_task, step_task,
  answer, note_answer, Program, update, Step, send_on, task_on, course, idle,
}
use manet_testbed.Traffic.Spared.{verdicts, runs-Spares, begins-shared}

-- The callback for a packet returned `ret`.
abbrev pub HasReturned : (answers : List (Plane × ℕ × ℕ)) → Plane → (id ret : ℕ) → Type 0
HasReturned [] plane id ret = ⊥
HasReturned (a ∷ answers) plane id ret = (a ≡ (plane, id, ret)) ⊎ HasReturned answers plane id ret

-- A packet is dropped, or accepted since its callback did not return 0.
abbrev pub IsJustified : (answers : List (Plane × ℕ × ℕ)) → Plane → (id verdict : ℕ) → Type 0
IsJustified answers plane id verdict =
    (verdict ≡ nf_drop)
    ⊎ ((verdict ≡ nf_accept)
        × ((ret : ℕ) × HasReturned answers plane id ret × ((u8 ret == 0) ≡ false)))

abbrev pub AllJustified : (answers rulings : List (Plane × ℕ × ℕ)) → Type 0
AllJustified answers [] = Unit {0}
AllJustified answers ((plane, id, verdict) ∷ rulings) =
    IsJustified answers plane id verdict × AllJustified answers rulings

-- The verdict that is next is justified.
abbrev IsFair : (answers : List (Plane × ℕ × ℕ)) → Task → Type 0
IsFair answers (rules plane id verdict) = IsJustified answers plane id verdict
IsFair answers _ = Unit {0}

-- More answers justify as much.
later-IsJustified :
    (a : Plane × ℕ × ℕ) (answers : List (Plane × ℕ × ℕ)) (plane : Plane) (id verdict : ℕ)
    → IsJustified answers plane id verdict
    → IsJustified (a ∷ answers) plane id verdict
later-IsJustified a answers plane id verdict (inl dropped) = inl dropped
later-IsJustified a answers plane id verdict (inr (accepted, (ret, returned, nonzero))) =
    inr (accepted, (ret, inr returned, nonzero))

later-AllJustified :
    (a : Plane × ℕ × ℕ) (answers rulings : List (Plane × ℕ × ℕ))
    → AllJustified answers rulings
    → AllJustified (a ∷ answers) rulings
later-AllJustified a answers [] h = tt
later-AllJustified a answers ((plane, id, verdict) ∷ rulings) h =
    (later-IsJustified a answers plane id verdict h.0, later-AllJustified a answers rulings h.1)

later-IsFair :
    (a : Plane × ℕ × ℕ) (answers : List (Plane × ℕ × ℕ)) (task : Task)
    → IsFair answers task
    → IsFair (a ∷ answers) task
later-IsFair a answers unoccupied h = tt
later-IsFair a answers (tests_own plane id p_data) h = tt
later-IsFair a answers (asks_user plane id args) h = tt
later-IsFair a answers (in_callback plane id callback args) h = tt
later-IsFair a answers (rules plane id verdict) h = later-IsJustified a answers plane id verdict h

record Fair (x : Program) : Type 0 where
  pub fair : (j : ℕ) → IsFair x.answered (x.tasks j)
  pub justified : AllJustified x.answered (verdicts x.world.shared.log)

-- What leaves the packets and the verdicts alone.
aside-Fair :
    (x y : Program)
    → y.tasks ≡ x.tasks
    → y.answered ≡ x.answered
    → verdicts y.world.shared.log ≡ verdicts x.world.shared.log
    → Fair x
    → Fair y
aside-Fair x y tasks answered log v = record {
  fair = λ j. rw (tasks, answered) (v.fair j);
  justified = rw (answered, log) v.justified;
}

-- A thread goes on with its packet.
moved-Fair :
    (x y : Program) (i : ℕ) (task : Task)
    → y.tasks ≡ update i task x.tasks
    → y.answered ≡ x.answered
    → AllJustified x.answered (verdicts y.world.shared.log)
    → IsFair x.answered task
    → Fair x
    → Fair y
moved-Fair x y i task tasks answered log h v = record {
  fair = λ j. elim (Bool-cases (j == i)) [
    | inl here ↦ rw (tasks, answered, here) h
    | inr elsewhere ↦ rw (tasks, answered, elsewhere) (v.fair j)
  ];
  justified = rw answered log;
}

tested-Fair :
    (answers : List (Plane × ℕ × ℕ)) (own : Bool) (plane : Plane) (id : ℕ) (args : Arguments)
    → IsFair answers (if own then rules plane id nf_drop else asks_user plane id args)
tested-Fair answers true plane id args = inl refl
tested-Fair answers false plane id args = tt

first_task-Fair :
    (answers : List (Plane × ℕ × ℕ)) (nf : Netfilter) (plane : Plane) (id : ℕ) (bs : List ℕ)
    → IsFair answers (first_task nf plane id bs)
unfolding first_task
first_task-Fair answers nf in_control id bs = tt
first_task-Fair answers nf in_data id bs = tt
first_task-Fair answers nf out id bs = tt
first_task-Fair answers nf for id bs = tt

-- What a callback returns justifies the verdict that follows.
verdict-IsJustified :
    (answers : List (Plane × ℕ × ℕ)) (plane : Plane) (id ret : ℕ)
    → IsJustified ((plane, id, ret) ∷ answers) plane id (if u8 ret == 0 then nf_drop else nf_accept)
verdict-IsJustified answers plane id ret = elim (Bool-cases (u8 ret == 0)) [
  | inl zero_given ↦ rw zero_given (inl refl)
  | inr other ↦ rw other (inr (refl, (ret, inl refl, other)))
]

answered-Fair :
    (x : Program) (i ret : ℕ) (task : Task)
    → x.tasks i ≡ task
    → Fair x
    → Fair (record x {
      tasks = update i (answer ret task) x.tasks;
      answered = note_answer ret task x.answered;
    })
unfolding answer
answered-Fair x i ret unoccupied e v = moved-Fair x _ i unoccupied refl refl v.justified tt v
answered-Fair x i ret (tests_own plane id p_data) e v =
    moved-Fair x _ i (tests_own plane id p_data) refl refl v.justified tt v
answered-Fair x i ret (asks_user plane id args) e v =
    moved-Fair x _ i (asks_user plane id args) refl refl v.justified tt v
answered-Fair x i ret (rules plane id verdict) e v =
    moved-Fair x _ i (rules plane id verdict) refl refl v.justified (rw e at (v.fair i)) v
answered-Fair x i ret (in_callback plane id callback args) e v = record {
  fair = λ j. elim (Bool-cases (j == i)) [
    | inl here ↦ rw here (verdict-IsJustified x.answered plane id ret)
    | inr elsewhere ↦ rw elsewhere (later-IsFair (plane, id, ret) x.answered (x.tasks j) (v.fair j))
  ];
  justified = later-AllJustified (plane, id, ret) x.answered _ v.justified;
}

module _ (os : Os) (nl : Netlink) (nf : Netfilter) where
  task_on-Fair :
      (x : Program) (i : ℕ) (task : Task)
      → x.tasks i ≡ task
      → Fair x
      → Fair (task_on i (step_task nf os task x.world.shared) x)
  unfolding step_task call verdicts
  task_on-Fair x i unoccupied e v = moved-Fair x _ i unoccupied refl refl v.justified tt v
  task_on-Fair x i (tests_own plane id p_data) e v =
      moved-Fair x _ i _ refl refl v.justified (tested-Fair x.answered _ plane id _) v
  task_on-Fair x i (asks_user plane id args) e v = asked (registered plane x.world.shared)
    where
      asked :
          (cb : Option CallbackFunction)
          → Fair (task_on i (enter_callback plane id args cb x.world.shared) x)
      asked none = aside-Fair x _ refl refl refl v
      asked (some callback) =
          moved-Fair x _ i (in_callback plane id callback args) refl refl v.justified tt v
  task_on-Fair x i (in_callback plane id callback args) e v =
      moved-Fair x _ i (in_callback plane id callback args) refl refl v.justified tt v
  task_on-Fair x i (rules plane id verdict) e v =
      moved-Fair x _ i unoccupied refl refl ((rw e at (v.fair i)), v.justified) tt v

  send_on-Fair :
      (x : Program) (i : ℕ) (p : SendPoint)
      → Fair x
      → Fair (send_on i (step_send os p x.world.shared) x)
  unfolding step_send ntop call verdicts
  send_on-Fair x i (reads_broadcast msg_buf size) v = aside-Fair x _ refl refl refl v
  send_on-Fair x i (names_address a msg_buf size) v = aside-Fair x _ refl refl refl v
  send_on-Fair x i (reads_text msg_buf size) v = aside-Fair x _ refl refl refl v
  send_on-Fair x i (sends_to a msg_buf size) v = aside-Fair x _ refl refl refl v
  send_on-Fair x i (makes_result r) v = aside-Fair x _ refl refl refl v

  Fair-IsInvariant : IsInvariant os nl nf Any Fair
  Fair-IsInvariant = record {
    by_call = λ x i c v.
        aside-Fair x _ refl refl
          (ap (λ (s : State). verdicts s.log) (begins-shared os nl x.world i c)) v;
    by_departure = λ x i d allowed free v. aside-Fair x _ refl refl refl v;
    by_arrival = λ x i plane packet bs allowed idle v.
        moved-Fair x _ i (first_task nf plane (id_of packet) bs) refl refl v.justified
          (first_task-Fair x.answered nf plane (id_of packet) bs) v;
    by_answer = λ x i ret v. answered-Fair x i ret (x.tasks i) refl v;
    by_send = λ x i p e v. send_on-Fair x i p v;
    by_task = λ x i task e at v. task_on-Fair x i task e v;
    by_run = λ x i v. aside-Fair x _ refl refl (runs-Spares os nl x.world i).3 v;
    by_crash = λ x i at v. aside-Fair x _ refl refl refl v;
  }

  -- Threads that are in no call and have no packet at first make the calls that take the mutex, send,
  -- and handle packets, in any order of their steps; no verdict is given yet. Then each verdict in the
  -- history is NF_DROP, or NF_ACCEPT for a packet whose callback has returned, under the packet's
  -- plane and id, a number whose low byte is not 0.
  pub course-AllJustified :
      (s : State) (count : ℕ) (ms : List Step)
      → verdicts s.log ≡ []
      → let x = course os nl nf ms (idle count s) in
        AllJustified x.answered (verdicts x.world.shared.log)
  course-AllJustified s count ms unruled =
      let start : Fair (idle count s) = record { fair = λ j. tt; justified = rw unruled tt } in
      let v = course-any os nl nf Fair Fair-IsInvariant ms (idle count s) start in v.justified
