-- ===== src/Testing/Packets.antt =====
-- Queued packets and registrations.
use manet_testbed.Base.{
  ℕ, pos, minus_one, get_or, none, some, List, [], ◌∷◌, ◌≡◌, refl, arith, ◌-◌, ◌^◌, ◌≤◌, length,
}
use manet_testbed.Netlink.{load_u32}
use manet_testbed.Api.{
  State, CallbackFunction, out, system, nfq_close, nfq_destroy_queue, Reply, message, failed, done,
  Os,
}
use manet_testbed.Api.Laws.{Returns}
use manet_testbed.Queue.Handlers.{Packet, Netfilter, Arguments, User, arguments}
use manet_testbed.Queue.Handlers.Verdicts.{payload_length-short}
use manet_testbed.Queue.Threads.{receive_packets, thread_func}
use manet_testbed.Queue.Threads.Loop.{
  queued, ruled, set_up_of, receive_packets-rulings, thread_func_lem,
}
use manet_testbed.Queue.Register.{register_forward_callback, initialize_queue}
use manet_testbed.Queue.Register.Outcomes.{
  register, incoming, FreedOnSuccess, register-FreedOnSuccess, ForwardRegistered,
  register_forward_callback_lem, commands, initialize_queue_lem,
}
use manet_testbed.Testing.World.{world, opened, node, everyone}

-- The addresses of an IPv4 header, and one packet, with the id 1, in every message.
abbrev pub header : Netfilter
header = record {
  saddr = λ p. load_u32 (λ i. get_or p i 0) 12;
  daddr = λ p. load_u32 (λ i. get_or p i 0) 16;
  packets = λ bs. record { packet_id = some 1; payload = some bs } ∷ [];
}

-- A callback returns its own number.
abbrev decide : CallbackFunction → Arguments → ℕ
decide callback args = callback

abbrev user : User
user callback args s = done callback s

-- The bytes 0 to 11 of a header, then a source and a destination, and the UDP header.
abbrev pub packet_from : (a d : ℕ) → List ℕ
packet_from a d =
    69 ∷ 0 ∷ 0 ∷ 29 ∷ 0 ∷ 0 ∷ 0 ∷ 0 ∷ 64 ∷ 17 ∷ 0 ∷ 0 ∷ 192 ∷ 168 ∷ 1 ∷ a ∷ 192 ∷ 168 ∷ 1 ∷ d ∷ 1
    ∷ 13 ∷ 1 ∷ 13 ∷ 0 ∷ 9 ∷ 0 ∷ 0 ∷ 42 ∷ []

abbrev pub ordinary : Packet
ordinary = record { packet_id = some 5; payload = some (packet_from 9 7) }

abbrev pub echoed : Packet
echoed = record { packet_id = some 6; payload = some (packet_from 7 255) }

-- Callback 1 is registered for outgoing packets, and callback 0 for control packets.
abbrev pub running : State
running = record (opened []) {
  local_ip = node;
  broadcast_ip = everyone;
  outgoing = some 1;
  incoming_control = some 0;
}

payload_length-short_example :
    (2 ^ 32 - 28 ≤ (arguments header (1 ∷ 2 ∷ [])).payload_length)
    × (length (arguments header (1 ∷ 2 ∷ [])).payload ≡ 0)
payload_length-short_example = payload_length-short header (1 ∷ 2 ∷ []) (omega arith)

abbrev arriving : List Reply
arriving = message (packet_from 7 255) ∷ message (packet_from 9 7) ∷ failed ∷ []

receive_packets-rulings_example :
    receive_packets world header user out arriving running
    ≡ done tt (ruled header decide out running 1 (queued header arriving) [])
receive_packets-rulings_example =
    receive_packets-rulings world header user decide (λ c args t. refl) out running 1 refl arriving
      [] (refl, (refl, tt))

-- The own broadcast is dropped and the other packet accepted.
two_verdicts :
    queued header arriving
    ≡ record { packet_id = some 1; payload = some (packet_from 7 255) }
      ∷ record { packet_id = some 1; payload = some (packet_from 9 7) }
      ∷ []
two_verdicts = refl

thread_func_lem_example : thread_func world header user out 1 arriving running ≡ (
    let ruled' =
      ruled header decide out running 1 (queued header arriving) (set_up_of out 1 running) in
    done tt (record ruled' { log = nfq_close out ∷ nfq_destroy_queue out ∷ ruled'.log }))
thread_func_lem_example =
    thread_func_lem world header user decide (λ c args t. refl) out running 1 refl 1 arriving refl
      refl refl (refl, (refl, tt))

register-FreedOnSuccess_example :
    Returns FreedOnSuccess (register world (incoming (some 3) (some 4)) running)
register-FreedOnSuccess_example =
    register-FreedOnSuccess world running refl (incoming (some 3) (some 4))

register_forward_callback_lem_example :
    Returns (ForwardRegistered world running 3) (register_forward_callback world (some 3) running)
register_forward_callback_lem_example = register_forward_callback_lem world running refl 3

-- A system like `world` whose first command fails.
abbrev failing : Os
failing = record world { result = λ log. elim log [ system c ∷ [] ↦ minus_one | _ ↦ pos 1 ] }

initialize_queue_lem_example :
    (initialize_queue world running ≡ initialize_queue failing running)
    × (initialize_queue world running
        ≡ done (pos 0) (record running {
          incoming_control = none;
          incoming_data = none;
          outgoing = none;
          forwarded = none;
          log = commands running;
        }))
initialize_queue_lem_example = initialize_queue_lem world failing running refl
