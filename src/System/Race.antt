-- ===== src/System/Race.antt =====
-- Sends from several threads. `send_sock_msg` takes no mutex, and hands the address on in the static
-- text of `ntop`, so what one thread does may come between the two halves of another's send.
use manet_testbed.Base.{ℕ, ℤ, List, [], ◌∷◌, ◌≡◌, refl, take}
use manet_testbed.Api.{State, Action, sendto, Os, call, ntop}
use manet_testbed.Send.{send_to_text, send_sock_msg, send_unicast}
use manet_testbed.Send.Delivery.{datagram}
use manet_testbed.System.{state_of}

-- The halves of a send: `ntop` of the destination, and what follows.
pub data Half : Type 0 where
  names : (dest_address : ℕ) → Half
  sends : (msg_buf : List ℕ) (size : ℕ) → Half

-- The halves of a unicast.
abbrev pub unicast : (dest_address : ℕ) → List ℕ → ℕ → List Half
unicast dest_address msg_buf size = names dest_address ∷ sends msg_buf size ∷ []

-- Every address named is read back from its text.
abbrev pub AreReadable : Os → List Half → Type 0
AreReadable os [] = Unit {0}
AreReadable os (names a ∷ halves) = (os.inet_pton (os.inet_ntop a) ≡ a) × AreReadable os halves
AreReadable os (sends msg_buf size ∷ halves) = AreReadable os halves

-- The calls made where each datagram goes to the address that was named last, `address` at first.
abbrev pub delivered : (sock : ℤ) (address : ℕ) → List Half → List Action → List Action
delivered sock address [] log = log
delivered sock address (names a ∷ halves) log = delivered sock a halves log
delivered sock address (sends msg_buf size ∷ halves) log =
    delivered sock address halves (sendto sock (datagram address (take size msg_buf)) ∷ log)

module _ (os : Os) where
  unfoldable pub step : Half → State → State
  step (names a) s = state_of (ntop os a s)
  step (sends msg_buf size) s = state_of (send_to_text os msg_buf size s)

  unfoldable pub interleaved : List Half → State → State
  interleaved [] s = s
  interleaved (half ∷ halves) s = interleaved halves (step half s)

  -- In whatever order the halves of sends are carried out, by whatever threads, each datagram goes
  -- to the address that was named last before it, and nothing else is called. `address` is what the
  -- text of `ntop` is read as at first, and every address named is read back from its text.
  interleaved-delivered :
      (halves : List Half) (address : ℕ) (s : State)
      → os.inet_pton s.ip ≡ address
      → AreReadable os halves
      → (interleaved halves s).log ≡ delivered s.sock address halves s.log
  unfolding interleaved step ntop send_to_text call
  interleaved-delivered [] address s e r = refl
  interleaved-delivered (names a ∷ halves) address s e r = interleaved-delivered halves a _ r.0 r.1
  interleaved-delivered (sends msg_buf size ∷ halves) address s e r =
      rw (← e) (interleaved-delivered halves (os.inet_pton s.ip) _ refl r)

  -- `SendUnicast` is its two halves. Where two threads send and the second calls `ntop` between the
  -- halves of the first, both datagrams go to the destination of the second, provided that it is
  -- read back from its text: the first thread's destination gets none.
  pub overlap-delivered :
      (a b : ℕ) (msg_a : List ℕ) (size_a : ℕ) (msg_b : List ℕ) (size_b : ℕ) (s : State)
      → os.inet_pton (os.inet_ntop b) ≡ b
      → (state_of (send_unicast os a msg_a size_a s) ≡ interleaved (unicast a msg_a size_a) s)
        × ((interleaved (names a ∷ names b ∷ sends msg_a size_a ∷ sends msg_b size_b ∷ []) s).log
            ≡ sendto s.sock (datagram b (take size_b msg_b))
              ∷ sendto s.sock (datagram b (take size_a msg_a))
              ∷ s.log)
  unfolding interleaved step send_unicast send_sock_msg ntop send_to_text call
  overlap-delivered a b msg_a size_a msg_b size_b s e = (refl, rw e refl)
