-- ===== src/Testing/Unbroken.antt =====
-- A send and a packet whose steps are taken without a break, beside other threads.
use manet_testbed.Base.{repeat, ℤ, true, none, some, ◌∷◌, ◌≡◌, refl}
use manet_testbed.Api.{nfq_set_verdict, out, call, mutex_lock, ntop}
use manet_testbed.Route.{form_request}
use manet_testbed.Queue.Handlers.{arguments, is_own_broadcast}
use manet_testbed.Interleaving.{first, advance}
use manet_testbed.Interleaving.Schedule.{outside, move}
use manet_testbed.Traffic.{
  broadcast, first_send, step_send, unoccupied, first_task, step_task, Program, departs, arrives,
  may_call, proceeds, happens, course,
}
use manet_testbed.Traffic.Unbroken.{steps_of, send-unbroken}
use manet_testbed.Traffic.Owed.{IsReadable}
use manet_testbed.Send.Delivery.{Sent}
use manet_testbed.Traffic.Handling.{handler_steps, due_verdict, handle-unbroken}
use manet_testbed.Queue.Handlers.Verdicts.{registered}
use manet_testbed.Testing.World.{linux, world}
use manet_testbed.Testing.Sends.{hello}
use manet_testbed.Testing.Packets.{packet_from, header, ordinary}
use manet_testbed.Testing.Traffic.{entangled_program}

-- Thread 3 broadcasts while thread 0 is inside, without a break.
abbrev broadcast_program : Program
broadcast_program =
    course world linux header
      (departs 3 (broadcast hello 4) ∷ repeat (steps_of (broadcast hello 4)) (proceeds 3))
      entangled_program

free_to_send :
    may_call
      (entangled_program.world.places 3)
      (entangled_program.sends 3)
      (entangled_program.tasks 3)
    ≡ true
unfolding course happens first advance form_request call mutex_lock first_send step_send ntop
    first_task step_task arguments is_own_broadcast move
free_to_send = refl

everyone-IsReadable : IsReadable world entangled_program.world.shared.broadcast_ip
unfolding course happens first advance form_request call mutex_lock first_send step_send ntop
    first_task step_task arguments is_own_broadcast move
everyone-IsReadable = refl

send-unbroken_example :
    (r : ℤ) × Sent world hello 4 entangled_program.world.shared
      entangled_program.world.shared.broadcast_ip r broadcast_program.world.shared
    × (broadcast_program.sent ≡ r ∷ entangled_program.sent)
    × (broadcast_program.sends 3 ≡ none)
send-unbroken_example =
    send-unbroken world linux header 3 entangled_program (broadcast hello 4) free_to_send
      everyone-IsReadable

-- Thread 3 handles a packet while thread 0 is inside, without a break.
abbrev packet_program : Program
packet_program =
    course world linux header (arrives 3 out ordinary ∷ handler_steps 3 1) entangled_program

registered_meanwhile : registered out entangled_program.world.shared ≡ some 1
unfolding course happens first advance form_request call mutex_lock first_send step_send ntop
    first_task step_task arguments is_own_broadcast move
registered_meanwhile = refl

nothing_at_hand : entangled_program.tasks 3 ≡ unoccupied
unfolding course happens first advance form_request call mutex_lock first_send step_send ntop
    first_task step_task arguments is_own_broadcast move
nothing_at_hand = refl

calls_nothing : (entangled_program.world.places 3 ≡ outside) × (entangled_program.sends 3 ≡ none)
unfolding course happens first advance form_request call mutex_lock first_send step_send ntop
    first_task step_task arguments is_own_broadcast move
calls_nothing = (refl, refl)

handle-unbroken_example :
    (packet_program.world.shared ≡ record entangled_program.world.shared {
      log =
          nfq_set_verdict out 5 (
            due_verdict out
              (is_own_broadcast entangled_program.world.shared (arguments header (packet_from 9 7)))
              1)
          ∷ entangled_program.world.shared.log;
    })
    × (packet_program.tasks 3 ≡ unoccupied)
handle-unbroken_example =
    handle-unbroken world linux header 3 entangled_program out ordinary (packet_from 9 7) 1 1
      calls_nothing.0 calls_nothing.1 nothing_at_hand refl registered_meanwhile
