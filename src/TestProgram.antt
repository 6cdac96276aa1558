-- ===== src/TestProgram.antt =====
-- test.c: a program that tries the library by hand. It registers its callbacks and then broadcasts a
-- text for ever.
pub mod Broadcasts
use manet_testbed.Base.{
  ℕ, zero, suc, String, Option, some, List, [], ◌∷◌, ◌+◌, ◌==◌, if◌then◌else◌, u32,
}
use manet_testbed.Netlink.{Mem, Netlink}
use manet_testbed.Api.{State, CallbackFunction, M, Run, done, and_then, pure, ◌>>=◌, ◌>>◌, Os}
use manet_testbed.Iface.{get_interface_ip}
use manet_testbed.Send.{send_broadcast}
use manet_testbed.Queue.Handlers.{Arguments, User}
use manet_testbed.Queue.Register.{register_incoming_callback, register_outgoing_callback}
use manet_testbed.Init.{initialize_api}

-- The functions `in`, `in2` and `out`.
abbrev pub in_function : CallbackFunction
in_function = 1

abbrev pub in2_function : CallbackFunction
in2_function = 2

abbrev pub out_function : CallbackFunction
out_function = 3

-- `out` accepts every packet. `in` and `in2` end without a `return`, so what is taken for their
-- result is not determined: it is the argument `leftover`.
unfoldable pub callbacks : (leftover : Arguments → ℕ) → User
callbacks leftover f args = if f == out_function then pure 1 else pure (leftover args)

-- "test message" and its end.
abbrev pub test_message : List ℕ
test_message = 116 ∷ 101 ∷ 115 ∷ 116 ∷ 32 ∷ 109 ∷ 101 ∷ 115 ∷ 115 ∷ 97 ∷ 103 ∷ 101 ∷ 0 ∷ []

module _ (os : Os) where
  -- The first `rounds` rounds of the `while` loop, which never ends.
  unfoldable pub broadcasts : (rounds : ℕ) → M (Unit {0})
  broadcasts zero = pure tt
  broadcasts (suc rounds) = do send_broadcast os test_message 13; broadcasts rounds

  -- Both registrations and the loop. The results are not looked at.
  unfoldable pub serve : (rounds : ℕ) → M (Unit {0})
  serve rounds = do
    register_incoming_callback os (some in_function) (some in2_function)
    register_outgoing_callback os (some out_function)
    broadcasts rounds

  -- The address `a`, 2 further in its last byte, is only printed. The stacks are those of the calls
  -- of `GetInterfaceIP`.
  unfoldable pub main : Netlink → (stack1 stack2 stack3 : Mem) (rounds : ℕ) → M (Unit {0})
  main nl stack1 stack2 stack3 rounds = do
    initialize_api os nl stack1 stack2
    a ← get_interface_ip os nl stack3 (some "wlan0") 0
    serve rounds
