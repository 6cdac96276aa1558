-- ===== src/Testing/Traffic.antt =====
-- Threads that call, send and handle packets, a step at a time.
use manet_testbed.Base.{
  Bool, length, repeat, ℕ, pos, minus_one, none, List, [], ◌∷◌, ◌++◌, ◌≡◌, refl, sym, ◌∙◌, true,
  false, take,
}
use manet_testbed.Api.{State, out, call, check, get_msg, mutex_lock, mutex_unlock, ntop}
use manet_testbed.Route.{form_request, parse_nl_route_msg, note_error}
use manet_testbed.Route.Kernel.{outcomes, kernel_table, effects}
use manet_testbed.Send.Delivery.{datagram}
use manet_testbed.Queue.Handlers.{Arguments, arguments, is_own_broadcast, nf_drop, nf_accept}
use manet_testbed.Interleaving.{adding, deleting, Ending, first, advance}
use manet_testbed.Interleaving.Schedule.{move, leaves, runs}
use manet_testbed.Interleaving.Serial.{NoneInside}
use manet_testbed.Traffic.{
  unicast, broadcast, first_send, step_send, unoccupied, first_task, step_task, in_callback, answer,
  Program, Step, calls, departs, arrives, answers, proceeds, happens, course, idle,
}
use manet_testbed.Traffic.OneInside.{course-OneInside}
use manet_testbed.Traffic.Routes.Requests.{operations}
use manet_testbed.Traffic.Routes.{course-table}
use manet_testbed.Traffic.Spared.{datagrams, verdicts}
use manet_testbed.Traffic.Owed.{all_meant}
use manet_testbed.Traffic.Delivered.{course-delivered}
use manet_testbed.Traffic.Owing.{ruled, handled}
use manet_testbed.Traffic.Ruled.{course-ruled}
use manet_testbed.Traffic.Justified.{AllJustified, course-AllJustified}
use manet_testbed.Traffic.Screened.{course-IsForeign}
use manet_testbed.Traffic.Noted.{IsNoted, outcome, course-AllFail}
use manet_testbed.Testing.World.{linux, world, zeros, node, everyone}
use manet_testbed.Testing.Routes.{ack, no_such_route, no_routes, kernel, kernel-IsDocumented}
use manet_testbed.Testing.Sends.{hello}
use manet_testbed.Testing.Packets.{packet_from, header, ordinary, echoed, running}

-- The kernel grants the first request and refuses the second.
abbrev pub at_work : State
at_work = record running { inbox = ack ∷ no_such_route ∷ [] }

-- The steps of a change of a route, from the taking of the mutex to the result.
abbrev changes : ℕ → List Step
changes i =
    proceeds i
    ∷ proceeds i
    ∷ proceeds i
    ∷ proceeds i
    ∷ proceeds i
    ∷ proceeds i
    ∷ proceeds i
    ∷ proceeds i
    ∷ []

-- Thread 0 adds a route while thread 1 sends and thread 2 handles a packet, whose callback waits to
-- delete one.
abbrev entangled : List Step
entangled =
    calls 0 (adding zeros node 9)
    ∷ arrives 2 out ordinary
    ∷ departs 1 (unicast node hello 5)
    ∷ proceeds 0
    ∷ proceeds 1
    ∷ proceeds 2
    ∷ proceeds 2
    ∷ calls 2 (deleting zeros 5 6)
    ∷ proceeds 2
    ∷ proceeds 1
    ∷ proceeds 0
    ∷ []

-- Then each finishes; thread 1 sends once more, and thread 2 drops a packet.
abbrev finished : List Step
finished =
    entangled
    ++ (proceeds 1 ∷ changes 0)
    ++ changes 2
    ++ (proceeds 1
        ∷ departs 1 (broadcast hello 4)
        ∷ answers 2 1
        ∷ proceeds 1
        ∷ proceeds 2
        ∷ proceeds 1
        ∷ arrives 2 out echoed
        ∷ proceeds 1
        ∷ proceeds 2
        ∷ proceeds 1
        ∷ proceeds 1
        ∷ proceeds 2
        ∷ [])

abbrev pub entangled_program : Program
entangled_program = course world linux header entangled (idle 4 at_work)

abbrev finished_program : Program
finished_program = course world linux header finished (idle 4 at_work)

what_came :
    (finished_program.world.returned ≡ (1, minus_one) ∷ (0, pos 0) ∷ [])
    × (datagrams finished_program.world.shared.log
        ≡ datagram everyone (take 4 hello) ∷ datagram node hello ∷ [])
    × (verdicts finished_program.world.shared.log ≡ (out, 6, nf_drop) ∷ (out, 5, nf_accept) ∷ [])
unfolding course happens first advance form_request parse_nl_route_msg note_error call check get_msg
    mutex_lock mutex_unlock first_send step_send ntop first_task step_task answer arguments
    is_own_broadcast datagrams verdicts move
what_came = (refl, refl, refl)

mutex_free : finished_program.world.shared.lock ≡ false
unfolding course happens first advance form_request parse_nl_route_msg note_error call check get_msg
    mutex_lock mutex_unlock first_send step_send ntop first_task step_task answer arguments
    is_own_broadcast move
mutex_free = refl

all_outside : NoneInside finished_program.world.places
all_outside j in_j =
    let (_, held) = course-OneInside world linux header at_work 4 finished j j in_j in_j in
    let no : true ≡ false = sym held ∙ mutex_free in cc

nothing_begun : (finished_program.sends 1 ≡ none) × (finished_program.tasks 2 ≡ unoccupied)
unfolding course happens first advance form_request parse_nl_route_msg note_error call check get_msg
    mutex_lock mutex_unlock first_send step_send ntop first_task step_task answer arguments
    is_own_broadcast move
nothing_begun = (refl, refl)

-- The kernel has performed the addition, and not the deletion: there is no such route.
course-table_example :
    (bs : List Bool) × (outcomes kernel world linux no_routes finished_program.world.shared.log
      ≡ outcomes kernel world linux no_routes at_work.log ++ bs)
    × (length bs ≡ length (operations finished_program.world.entered))
    × (kernel_table kernel world linux no_routes finished_program.world.shared.log
        ≡ effects bs
            (operations finished_program.world.entered)
            (kernel_table kernel world linux no_routes at_work.log))
course-table_example =
    course-table kernel world linux no_routes kernel-IsDocumented header at_work 4 finished
      all_outside

course-OneInside_example : (◌≡◌ {A = ℕ} 0 0) × (entangled_program.world.shared.lock ≡ true)
unfolding course happens first advance form_request call mutex_lock first_send step_send ntop
    first_task step_task arguments is_own_broadcast move
course-OneInside_example = course-OneInside world linux header at_work 4 entangled 0 0 tt tt

course-delivered_example :
    datagrams finished_program.world.shared.log
    ≡ all_meant at_work.broadcast_ip finished_program.departed ++ datagrams at_work.log
course-delivered_example =
    course-delivered world linux header at_work 4 1 finished (refl, refl, (refl, refl, tt))
      nothing_begun.0

course-ruled_example :
    ruled out (verdicts finished_program.world.shared.log)
    ≡ handled out finished_program.arrived ++ ruled out (verdicts at_work.log)
course-ruled_example =
    course-ruled world linux header at_work 4 2 out finished ((λ e. refl), ((λ e. refl), tt))
      nothing_begun.1

abbrev asked_about : Arguments
asked_about = arguments header (packet_from 9 7)

callback_runs : entangled_program.tasks 2 ≡ in_callback out 5 1 asked_about
unfolding course happens first advance form_request call mutex_lock first_send step_send ntop
    first_task step_task arguments is_own_broadcast move
callback_runs = refl

course-IsForeign_example : is_own_broadcast at_work asked_about ≡ false
course-IsForeign_example =
    course-IsForeign at_work world linux header 4 entangled 2 out 5 1 asked_about callback_runs refl

-- The kernel has refused a change; thread 1 sends again.
abbrev sent_again : List Step
sent_again = departs 1 (unicast node hello 5) ∷ repeat 4 (proceeds 1)

abbrev again_program : Program
again_program = course world linux header sent_again finished_program

refusal-IsNoted : IsNoted finished_program.world
unfolding course happens first advance form_request parse_nl_route_msg note_error call check get_msg
    mutex_lock mutex_unlock first_send step_send ntop first_task step_task answer arguments
    is_own_broadcast move
refusal-IsNoted = refl

course-AllFail_example :
    IsNoted again_program.world
    × ((n : ℕ) × (again_program.sent ≡ repeat n minus_one ++ finished_program.sent))
    × ((i turn : ℕ) (e : Ending)
        → again_program.world.places i ≡ leaves turn e
        → (move world linux (runs i) again_program.world).returned
          ≡ (turn, outcome e) ∷ again_program.world.returned)
course-AllFail_example =
    course-AllFail world linux header sent_again finished_program refusal-IsNoted

course-AllJustified_example :
    AllJustified finished_program.answered (verdicts finished_program.world.shared.log)
unfolding verdicts
course-AllJustified_example = course-AllJustified world linux header at_work 4 finished refl
