-- ===== src/Testing/Addresses.antt =====
-- Addresses of an interface.
use manet_testbed.Base.{ℕ, minus_one, false, none, List, [], ◌∷◌, ◌≡◌, refl, arith, take}
use manet_testbed.Netlink.{Mem, overlay, load_u32}
use manet_testbed.Api.{State, message, null, into, done, blocked, fault, buflen}
use manet_testbed.Iface.{is_wanted, get_interface_ip}
use manet_testbed.Iface.Attributes.{Attributes, end, next}
use manet_testbed.Iface.Messages.{Messages, stop, address}
use manet_testbed.Iface.Address.{
  Dump, last, more, entered, get_interface_ip_lem, get_interface_ip-fault, get_interface_ip-blocked,
}
use manet_testbed.Testing.World.{linux, world, zeros, opened, node}

-- A message with the address 192.168.1.7 of interface 3, and the end of a dump.
abbrev new_address : List ℕ
new_address =
    32 ∷ 0 ∷ 0 ∷ 0 ∷ 20 ∷ 0 ∷ 0 ∷ 0 ∷ 0 ∷ 0 ∷ 0 ∷ 0 ∷ 0 ∷ 0 ∷ 0 ∷ 0 ∷ 2 ∷ 24 ∷ 0 ∷ 0 ∷ 3 ∷ 0 ∷ 0 ∷ 0
    ∷ 8 ∷ 0 ∷ 1 ∷ 0 ∷ 192 ∷ 168 ∷ 1 ∷ 7 ∷ []

abbrev finished : List ℕ
finished = 20 ∷ 0 ∷ 0 ∷ 0 ∷ 3 ∷ 0 ∷ 0 ∷ 0 ∷ 0 ∷ 0 ∷ 0 ∷ 0 ∷ 0 ∷ 0 ∷ 0 ∷ 0 ∷ 0 ∷ 0 ∷ 0 ∷ 0 ∷ []

abbrev refused : List ℕ
refused = 20 ∷ 0 ∷ 0 ∷ 0 ∷ 2 ∷ 0 ∷ 0 ∷ 0 ∷ 0 ∷ 0 ∷ 0 ∷ 0 ∷ 0 ∷ 0 ∷ 0 ∷ 0 ∷ 0 ∷ 0 ∷ 0 ∷ 0 ∷ []

abbrev first : Mem
first = overlay (take buflen new_address) zeros

abbrev second : Mem
second = overlay (take buflen finished) first

attributes : Attributes linux first 24 8 (24 ∷ [])
attributes = next refl (omega arith) (end refl)

messages : Messages linux first 3 0 32 (24 ∷ []) 0
messages = address refl (omega arith) refl refl attributes (stop refl refl) refl

ended : Messages linux second 3 0 20 [] 3
ended = stop refl refl

abbrev pub start : State
start = opened (message new_address ∷ message finished ∷ [])

pub dump : Dump linux 0 3 1 zeros null start.inbox second (into 1 28) []
unfolding is_wanted
dump = more messages refl (last ended refl)

-- Nothing in the dump is a broadcast address.
no_broadcast : Dump linux 1 3 1 zeros null start.inbox second null []
unfolding is_wanted
no_broadcast = more messages refl (last ended refl)

get_interface_ip_lem_example :
    get_interface_ip world linux zeros none 0 start
    ≡ done
        (load_u32 second 28)
        (record (entered world linux none start) { lock = false; addr = into 1 28; inbox = [] })
get_interface_ip_lem_example =
    get_interface_ip_lem world linux 0 3 zeros none start refl refl refl refl dump

-- The address that is read is 192.168.1.7.
address_of_node : load_u32 second 28 ≡ node
address_of_node = refl

get_interface_ip-fault_example :
    get_interface_ip world linux zeros none 1 start
    ≡ fault (record (entered world linux none start) { lock = false; addr = null; inbox = [] })
get_interface_ip-fault_example =
    get_interface_ip-fault world linux 1 3 zeros none start refl refl refl refl no_broadcast
      (λ offset e. cc)

abbrev refusing : State
refusing = opened (message refused ∷ [])

get_interface_ip-blocked_example :
    get_interface_ip world linux zeros none 0 refusing
    ≡ blocked (record (entered world linux none refusing) { f_err = minus_one; inbox = [] })
get_interface_ip-blocked_example =
    get_interface_ip-blocked world linux 0 3 zeros none refusing refused refl refl refl refl refl
