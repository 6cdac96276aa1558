-- ===== src/UavRouting/Transfer/Counters/Session.antt =====
-- What any sequence of callbacks keeps.
use manet_testbed.Base.{
  ℕ, zero, suc, false, List, [], ◌∷◌, ◌^◌, ltb, leb, ◌≤◌, ◌≡◌, refl, arith, Bool-cases, inl, inr,
  ◌⊎◌, ◌∙◌,
}
use manet_testbed.UavRouting.Ns3.{Ns3, recv}
use manet_testbed.UavRouting.Outcome.{
  Sim, Outcome, returned, aborted, crashed, exhausted, call, object,
}
use manet_testbed.UavRouting.Transfer.{
  total_tx_bytes, write_size, get_size, accept_socket, receive, write_loop,
}
use manet_testbed.UavRouting.Transfer.Counters.{
  Event, accepts, receives, has_space, Holds, sends_in, AllBehind, bytes_in, Counted, fire, session,
  Writes, Holds-bind, write_loop-Writes,
}

ℕ-cases : (n : ℕ) → (n ≡ 0) ⊎ ((k : ℕ) × (n ≡ suc k))
ℕ-cases zero = inl refl
ℕ-cases (suc k) = inr (k, refl)

Holds-mono :
    {A : Type 0} (P Q : Sim → Type 0) (r : Outcome A)
    → Holds P r
    → ((t : Sim) → P t → Q t)
    → Holds Q r
Holds-mono P Q (returned a t) h weaken = weaken t h
Holds-mono P Q (exhausted t) h weaken = weaken t h
Holds-mono P Q (aborted t) h weaken = h
Holds-mono P Q (crashed t) h weaken = h

module _ (ns3 : Ns3) where
  -- What one callback does, from counters that are right.
  abbrev Advances : Sim → Sim → Type 0
  Advances s t =
      Counted ns3 t
      × (AllBehind write_size s.log → AllBehind write_size t.log)
      × (bytes_in ns3 s.log ≤ bytes_in ns3 t.log)
      × (total_tx_bytes ≤ s.current_rx_bytes → sends_in t.log ≡ sends_in s.log)

  -- Where the file is received, nothing is sent.
  abbrev Idle : Sim → Sim → Type 0
  Idle s t = total_tx_bytes ≤ s.current_rx_bytes → sends_in t.log ≡ sends_in s.log

  write_loop-idle :
      (rounds socket : ℕ) (s : Sim)
      → total_tx_bytes ≤ s.current_rx_bytes
      → Holds (λ t. sends_in t.log ≡ sends_in s.log) (write_loop ns3 rounds socket s)
  unfolding write_loop
  write_loop-idle zero socket s h = refl
  write_loop-idle (suc rounds) socket s h =
      let complete : ltb s.current_rx_bytes total_tx_bytes ≡ false = ground arith in
      rw complete refl

  Holds-and :
      {A : Type 0} (P Q : Sim → Type 0) (r : Outcome A)
      → Holds P r
      → Holds Q r
      → Holds (λ t. P t × Q t) r
  Holds-and P Q (returned a t) h k = (h, k)
  Holds-and P Q (exhausted t) h k = (h, k)
  Holds-and P Q (aborted t) h k = tt
  Holds-and P Q (crashed t) h k = tt

  receive-Advances :
      (socket : ℕ) (s : Sim) → Counted ns3 s → Holds (Advances s) (receive ns3 socket s)
  unfolding receive object call get_size
  receive-Advances socket s c = elim (ℕ-cases (ns3.object (recv socket ∷ s.log))) [
    | inl null ↦ rw null tt
    | inr (p, e) ↦ rw e (
      record {
        packets = omega (arith, c.packets);
        received = rw e (omega (arith, c.received));
        sent = c.sent;
      },
      (λ b. b),
      rw e (omega arith),
      λ h. refl,
    )
  ]

  fire-Advances :
      (rounds : ℕ) (e : Event) (s : Sim) → Counted ns3 s → Holds (Advances s) (fire ns3 rounds e s)
  unfolding fire accept_socket call
  fire-Advances rounds (accepts socket) s c = (
    record { packets = c.packets; received = c.received; sent = c.sent },
    (λ b. b),
    omega arith,
    λ h. refl,
  )
  fire-Advances rounds (receives socket) s c = receive-Advances socket s c
  fire-Advances rounds (has_space socket) s c =
      Holds-mono (λ t. Writes ns3 s t × Idle s t) (Advances s) (write_loop ns3 rounds socket s)
        (Holds-and (Writes ns3 s) (Idle s) (write_loop ns3 rounds socket s) writes idle)
        λ t (w, i). (
          record {
            packets = omega (arith, w.1, w.3, c.packets);
            received = omega (arith, w.0, w.2, c.received);
            sent = w.5;
          },
          w.6,
          omega (arith, w.2),
          i,
        )
    where
      writes : Holds (Writes ns3 s) (write_loop ns3 rounds socket s)
      writes =
          write_loop-Writes ns3 rounds socket s s (refl, refl, refl, refl, refl, c.sent, λ b. b)

      idle : Holds (Idle s) (write_loop ns3 rounds socket s)
      idle = elim (Bool-cases (leb total_tx_bytes s.current_rx_bytes)) [
        | inl complete ↦
            Holds-mono (λ t. sends_in t.log ≡ sends_in s.log) (Idle s) _
              (write_loop-idle rounds socket s (ground arith)) λ t e h. e
        | inr wanting ↦ Holds-mono (Writes ns3 s) (Idle s) _ writes λ t w h. absurd (ground arith)
      ]

  -- What has happened since `s`.
  abbrev Since : Sim → Sim → Type 0
  Since s t =
      Counted ns3 t
      × (AllBehind write_size s.log → AllBehind write_size t.log)
      × (bytes_in ns3 s.log ≤ bytes_in ns3 t.log)
      × (total_tx_bytes ≤ s.current_rx_bytes
          → (sends_in t.log ≡ sends_in s.log) ⊎ (2 ^ 32 ≤ bytes_in ns3 t.log))

  Since-Advances : (s t u : Sim) → Counted ns3 s → Since s t → Advances t u → Since s u
  Since-Advances s t u c a b =
      (b.0, (λ h. b.1 (a.1 h)), omega (arith, a.2, b.2), λ h. sends h (a.3 h))
    where
      sends :
          total_tx_bytes ≤ s.current_rx_bytes
          → (sends_in t.log ≡ sends_in s.log) ⊎ (2 ^ 32 ≤ bytes_in ns3 t.log)
          → (sends_in u.log ≡ sends_in s.log) ⊎ (2 ^ 32 ≤ bytes_in ns3 u.log)
      sends h (inr wrapped) = inr (omega (arith, b.2))
      sends h (inl same) = elim (Bool-cases (leb (2 ^ 32) (bytes_in ns3 t.log))) [
        | inl wrapped ↦ inr (ground (arith, b.2))
        | inr small ↦
            let complete : total_tx_bytes ≤ t.current_rx_bytes =
              ground (arith, a.0.received, a.2, c.received) in
            inl (b.3 complete ∙ same)
      ]

  since : (s : Sim) → Counted ns3 s → Since s s
  since s c = (c, (λ b. b), omega arith, λ h. inl refl)

  session-Since :
      (rounds : ℕ) (es : List Event) (s t : Sim)
      → Counted ns3 s
      → Since s t
      → Holds (Since s) (session ns3 rounds es t)
  unfolding session
  session-Since rounds [] s t c a = a
  session-Since rounds (e ∷ es) s t c a =
      Holds-bind ns3 (Since s) (Since s) (fire ns3 rounds e t) _
        (Holds-mono (Advances t) (Since s) _ (fire-Advances rounds e t a.0)
          λ u. Since-Advances s t u c a)
        (λ _ u b. session-Since rounds es s u c b) (λ u b. b)

  -- With the counters right at first, any sequence of callbacks that does not end the program leaves
  -- them right: the packets received, the bytes in them and the bytes sent, each modulo 2^32 what
  -- the calls of `Recv` and `Send` in the log say.
  pub session-Counted :
      (rounds : ℕ) (es : List Event) (s : Sim)
      → Counted ns3 s
      → Holds (Counted ns3) (session ns3 rounds es s)
  session-Counted rounds es s c =
      Holds-mono (Since s) (Counted ns3) _ (session-Since rounds es s s c (since s c)) λ t a. a.0

  -- With the counters right and the file received, any sequence of callbacks that does not end the
  -- program sends nothing more, unless 2^32 bytes or more have been received by then.
  pub session-Idle :
      (rounds : ℕ) (es : List Event) (s : Sim)
      → Counted ns3 s
      → total_tx_bytes ≤ s.current_rx_bytes
      → Holds
          (λ t. (sends_in t.log ≡ sends_in s.log) ⊎ (2 ^ 32 ≤ bytes_in ns3 t.log))
          (session ns3 rounds es s)
  session-Idle rounds es s c h =
      Holds-mono (Since s) _ _ (session-Since rounds es s s c (since s c)) λ t a. a.3 h

  -- In any sequence of callbacks every `Send` is given bytes that begin where the array `data` of
  -- 1448 bytes ends: none of the bytes sent is one of the array's.
  pub session-AllBehind :
      (rounds : ℕ) (es : List Event) (s : Sim)
      → Counted ns3 s
      → AllBehind write_size s.log
      → Holds (λ t. AllBehind write_size t.log) (session ns3 rounds es s)
  session-AllBehind rounds es s c b =
      Holds-mono (Since s) _ _ (session-Since rounds es s s c (since s c)) λ t a. a.1 b
