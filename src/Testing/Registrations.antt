-- ===== src/Testing/Registrations.antt =====
-- Registrations beside sends and packets, a step at a time.
use manet_testbed.Base.{ℕ, u32_max, none, some, List, [], ◌∷◌, ◌≡◌, refl, true, false, arith}
use manet_testbed.Api.{
  Plane, CallbackFunction, State, done, in_control, out, call, mutex_lock, ntop,
}
use manet_testbed.Queue.Handlers.{Arguments}
use manet_testbed.Queue.Register.Outcomes.{outgoing}
use manet_testbed.Interleaving.{adding, registering, gives, first, advance}
use manet_testbed.Interleaving.Schedule.{move, leaves}
use manet_testbed.Interleaving.Serial.{NoneInside}
use manet_testbed.Traffic.{
  unicast, first_send, step_send, step_task, asks_user, in_callback, Program, Step, calls, departs,
  arrives, proceeds, happens, course, idle,
}
use manet_testbed.Traffic.Guarded.{course-called}
use manet_testbed.System.Calm.{spawned}
use manet_testbed.Queue.Register.{start_thread}
use manet_testbed.Queue.Handlers.Verdicts.{registered}
use manet_testbed.Traffic.Failing.{IsFailing}
use manet_testbed.Traffic.Deadlock.{course-Deadlock}
use manet_testbed.Testing.World.{linux, world, zeros, node}
use manet_testbed.Testing.Sends.{hello}
use manet_testbed.Testing.Packets.{header, echoed}
use manet_testbed.Testing.Traffic.{at_work}

-- A registration without a callback fails in thread 0; thread 1 waits to add a route.
abbrev refused : List Step
refused =
    calls 0 (registering (outgoing none))
    ∷ proceeds 0
    ∷ calls 1 (adding zeros node 9)
    ∷ proceeds 0
    ∷ proceeds 0
    ∷ []

abbrev tried_again : List Step
tried_again = proceeds 1 ∷ proceeds 0 ∷ arrives 0 in_control echoed ∷ proceeds 0 ∷ proceeds 1 ∷ []

abbrev refused_program : Program
refused_program = course world linux header refused (idle 2 at_work)

abbrev stuck_program : Program
stuck_program = course world linux header tried_again refused_program

refusal_comes : refused_program.world.places 0 ≡ leaves 0 (gives u32_max)
unfolding course happens move mutex_lock advance first call
refusal_comes = refl

refusal-IsFailing : IsFailing (refused_program.world.places 0)
refusal-IsFailing = rw refusal_comes (ground arith)

course-Deadlock_example :
    (stuck_program.world.shared.lock ≡ true)
    × NoneInside stuck_program.world.places
    × (stuck_program.world.entered ≡ refused_program.world.entered)
course-Deadlock_example =
    course-Deadlock world linux header at_work 2 refused tried_again 0 refusal-IsFailing

-- Thread 0 registers callback 3 for outgoing packets, and its thread is just created, while thread 1
-- sends.
abbrev registered_meanwhile : List Step
registered_meanwhile =
    calls 0 (registering (outgoing (some 3)))
    ∷ departs 1 (unicast node hello 5)
    ∷ proceeds 0
    ∷ proceeds 0
    ∷ proceeds 1
    ∷ proceeds 0
    ∷ proceeds 0
    ∷ proceeds 1
    ∷ proceeds 0
    ∷ []

abbrev created_state : State
created_state = (course world linux header registered_meanwhile (idle 2 at_work)).world.shared

thread_created : spawned out created_state.log ≡ true
unfolding course happens move mutex_lock advance first call start_thread first_send step_send ntop
thread_created = refl

nothing_spawned : (p : Plane) → spawned p at_work.log ≡ false
nothing_spawned p = refl

course-called_example :
    (f : CallbackFunction) × (registered out created_state ≡ some f)
    × ((id : ℕ) (args : Arguments)
        → step_task header world (asks_user out id args) created_state
          ≡ done (in_callback out id f args) created_state)
course-called_example =
    course-called world linux header at_work 2 registered_meanwhile out nothing_spawned
      thread_created
