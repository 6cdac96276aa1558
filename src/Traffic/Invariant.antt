-- ===== src/Traffic/Invariant.antt =====
-- What no step of the program breaks, where steps are restricted.
use manet_testbed.Base.{ℕ, true, Option, none, some, List, [], ◌∷◌, ◌≡◌, refl, inl, inr, Bool-cases}
use manet_testbed.Netlink.{Netlink}
use manet_testbed.Api.{Plane, Os}
use manet_testbed.Queue.Handlers.{Packet, Netfilter, id_of}
use manet_testbed.Interleaving.{Call}
use manet_testbed.Interleaving.Schedule.{
  Place, outside, waits, inside, leaves, crashed, begins, runs, move,
}
use manet_testbed.Traffic.{
  Departure, SendPoint, first_send, step_send, Task, unoccupied, tests_own, asks_user, in_callback,
  rules, first_task, step_task, answer, Program, update, may_call, Step, calls, departs, arrives,
  note_answer, answers, proceeds, note_answer, crash, send_on, task_on, handle_at, proceed, happens,
  course,
}

-- Each step that `Allowed` admits leaves `P`.
pub record IsInvariant (os : Os) (nl : Netlink) (nf : Netfilter) (Allowed : Step → Type 0)
    (P : Program → Type 0) : Type 0 where
  pub by_call :
      (x : Program) (i : ℕ) (c : Call)
      → P x
      → P (record x { world = move os nl (begins i c) x.world })
  pub by_departure :
      (x : Program) (i : ℕ) (d : Departure)
      → Allowed (departs i d)
      → x.sends i ≡ none
      → P x
      → P (record x {
        sends = update i (some (first_send d)) x.sends;
        departed = (i, d) ∷ x.departed;
      })
  pub by_arrival :
      (x : Program) (i : ℕ) (plane : Plane) (packet : Packet) (p_data : List ℕ)
      → Allowed (arrives i plane packet)
      → x.tasks i ≡ unoccupied
      → P x
      → P (record x {
        tasks = update i (first_task nf plane (id_of packet) p_data) x.tasks;
        arrived = (plane, id_of packet) ∷ x.arrived;
      })
  pub by_answer :
      (x : Program) (i ret : ℕ)
      → P x
      → P (record x {
        tasks = update i (answer ret (x.tasks i)) x.tasks;
        answered = note_answer ret (x.tasks i) x.answered;
      })
  pub by_send :
      (x : Program) (i : ℕ) (p : SendPoint)
      → x.sends i ≡ some p
      → P x
      → P (send_on i (step_send os p x.world.shared) x)
  pub by_task :
      (x : Program) (i : ℕ) (task : Task)
      → x.tasks i ≡ task
      → x.world.places i ≡ outside
      → P x
      → P (task_on i (step_task nf os task x.world.shared) x)
  pub by_run : (x : Program) (i : ℕ) → P x → P (record x { world = move os nl (runs i) x.world })
  pub by_crash : (x : Program) (i : ℕ) → x.world.places i ≡ outside → P x → P (crash i x)

-- Who may call is outside, and in no send.
may_call-free :
    (at : Place) (p : Option SendPoint) (task : Task)
    → may_call at p task ≡ true
    → (at ≡ outside) × (p ≡ none)
may_call-free outside none task h = (refl, refl)
may_call-free outside (some p) task h = cc
may_call-free (waits c) p task h = cc
may_call-free (inside turn q) p task h = cc
may_call-free (leaves turn e) p task h = cc
may_call-free crashed p task h = cc

module _ (os : Os) (nl : Netlink) (nf : Netfilter) (Allowed : Step → Type 0) (P : Program → Type 0)
    (kept : IsInvariant os nl nf Allowed P) where
  proceed-kept :
      (x : Program) (i : ℕ) (p : Option SendPoint) (at : Place)
      → x.sends i ≡ p
      → x.world.places i ≡ at
      → P x
      → P (proceed os nl nf p at (x.tasks i) i x)
  proceed-kept x i (some p) at e a h = kept.by_send x i p e h
  proceed-kept x i none outside e a h = kept.by_task x i (x.tasks i) refl a h
  proceed-kept x i none (waits c) e a h = kept.by_run x i h
  proceed-kept x i none (inside turn p) e a h = kept.by_run x i h
  proceed-kept x i none (leaves turn end) e a h = kept.by_run x i h
  proceed-kept x i none crashed e a h = h

  handle_at-kept :
      (task : Task) (i : ℕ) (plane : Plane) (packet : Packet) (x : Program)
      → Allowed (arrives i plane packet)
      → x.tasks i ≡ task
      → x.world.places i ≡ outside
      → P x
      → P (handle_at nf task i plane packet x)
  handle_at-kept unoccupied i plane packet x allowed idle at h = given packet.payload
    where
      given :
          (payload : Option (List ℕ))
          → P (handle_at nf unoccupied i plane (record packet { payload = payload }) x)
      given none = kept.by_crash x i at h
      given (some p_data) = kept.by_arrival x i plane packet p_data allowed idle h
  handle_at-kept (tests_own plane' id p_data) i plane packet x allowed idle at h = h
  handle_at-kept (asks_user plane' id args) i plane packet x allowed idle at h = h
  handle_at-kept (in_callback plane' id callback args) i plane packet x allowed idle at h = h
  handle_at-kept (rules plane' id verdict) i plane packet x allowed idle at h = h

  happens-kept : (m : Step) (x : Program) → Allowed m → P x → P (happens os nl nf m x)
  unfolding happens
  happens-kept (calls i c) x allowed h =
      elim (Bool-cases (may_call (x.world.places i) (x.sends i) (x.tasks i))) [
        | inl may ↦ rw may (kept.by_call x i c h)
        | inr busy ↦ rw busy h
      ]
  happens-kept (departs i d) x allowed h =
      elim (Bool-cases (may_call (x.world.places i) (x.sends i) (x.tasks i))) [
        | inl may ↦ rw may (kept.by_departure x i d allowed (may_call-free _ _ _ may).1 h)
        | inr busy ↦ rw busy h
      ]
  happens-kept (arrives i plane packet) x allowed h =
      elim (Bool-cases (may_call (x.world.places i) (x.sends i) (x.tasks i))) [
        | inl may ↦
            rw may (
              handle_at-kept (x.tasks i) i plane packet x allowed refl (may_call-free _ _ _ may).0
                h)
        | inr busy ↦ rw busy h
      ]
  happens-kept (answers i ret) x allowed h =
      elim (Bool-cases (may_call (x.world.places i) (x.sends i) (x.tasks i))) [
        | inl may ↦ rw may (kept.by_answer x i ret h)
        | inr busy ↦ rw busy h
      ]
  happens-kept (proceeds i) x allowed h =
      proceed-kept x i (x.sends i) (x.world.places i) refl refl h

  -- `Only` restricts each step of a course.
  pub course-invariant :
      (Only : List Step → Type 0)
      → ((m : Step) (ms : List Step) → Only (m ∷ ms) → Allowed m × Only ms)
      → (ms : List Step) (x : Program) → Only ms
      → P x
      → P (course os nl nf ms x)
  unfolding course
  course-invariant Only each [] x o h = h
  course-invariant Only each (m ∷ ms) x o h =
      let (allowed, later) = each m ms o in
      course-invariant Only each ms _ later (happens-kept m x allowed h)

-- Where any step may be taken.
abbrev pub Any : Step → Type 0
Any m = Unit {0}

pub course-any :
    (os : Os) (nl : Netlink) (nf : Netfilter) (P : Program → Type 0)
    → IsInvariant os nl nf Any P
    → (ms : List Step) (x : Program) → P x
    → P (course os nl nf ms x)
course-any os nl nf P kept ms x h =
    course-invariant os nl nf Any P kept (λ ms'. Unit {0}) (λ m ms' o. (tt, tt)) ms x tt h
