-- ===== src/Testing/Sends.antt =====
-- Datagrams.
use manet_testbed.Base.{ℕ, List, [], ◌∷◌, ◌≡◌, refl, take, ◌⊎◌, true, false}
use manet_testbed.Api.{State, sendto}
use manet_testbed.Api.Laws.{Returns, WaitsLocked}
use manet_testbed.Send.{send_unicast}
use manet_testbed.Send.Delivery.{datagram, Sent, send_unicast_lem}
use manet_testbed.System.{state_of}
use manet_testbed.System.Race.{Half, names, sends, unicast, interleaved, overlap-delivered}
use manet_testbed.TestProgram.{serve}
use manet_testbed.TestProgram.Broadcasts.{both_start, Serves, serve_lem}
use manet_testbed.Testing.World.{world, opened, node, everyone}

abbrev pub hello : List ℕ
hello = 104 ∷ 101 ∷ 108 ∷ 108 ∷ 111 ∷ []

abbrev ready : State
ready = record (opened []) { broadcast_ip = everyone }

send_unicast_lem_example :
    Returns (Sent world hello 5 ready node) (send_unicast world node hello 5 ready)
send_unicast_lem_example = send_unicast_lem world hello 5 ready node refl

-- Two threads send, each to another address.
abbrev crossed : List Half
crossed = names node ∷ names everyone ∷ sends hello 5 ∷ sends hello 4 ∷ []

overlap-delivered_example :
    (state_of (send_unicast world node hello 5 ready)
      ≡ interleaved world (unicast node hello 5) ready)
    × ((interleaved world crossed ready).log
        ≡ sendto ready.sock (datagram everyone (take 4 hello))
          ∷ sendto ready.sock (datagram everyone (take 5 hello))
          ∷ ready.log)
overlap-delivered_example = overlap-delivered world node everyone hello 5 hello 4 ready refl

serve_lem_example :
    ((both_start world ready ≡ true) × Returns (Serves world 2 ready) (serve world 2 ready))
    ⊎ ((both_start world ready ≡ false) × WaitsLocked (serve world 2 ready))
serve_lem_example = serve_lem world 2 ready refl refl
