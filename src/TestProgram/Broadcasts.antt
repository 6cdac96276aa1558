-- ===== src/TestProgram/Broadcasts.antt =====
-- What the test program sends, and when it sends nothing.
use manet_testbed.Base.{
  ℕ, zero, suc, is_zero, Bool, true, false, some, List, [], ◌∷◌, ◌++◌, ◌≡◌, refl, ap, ◌&&◌,
  Bool-cases, inl, inr, ◌⊎◌, ◌∙◌, sym, subst,
}
use manet_testbed.Api.{
  State, in_control, in_data, out, Action, sendto, pthread_create, system, Os, call, mutex_lock,
  mutex_unlock,
}
use manet_testbed.Api.Laws.{Returns, WaitsLocked, Returns-mono, Returns-bind}
use manet_testbed.Send.{send_broadcast}
use manet_testbed.Send.Delivery.{datagram, Sent, send_broadcast_lem}
use manet_testbed.Queue.Register.{
  start_thread, queue_outgoing, accept_control, register_incoming_callback,
  register_outgoing_callback,
}
use manet_testbed.Queue.Register.Outcomes.{incoming_filtered}
use manet_testbed.TestProgram.{
  in_function, in2_function, out_function, test_message, broadcasts, serve,
}

-- The datagrams of `count` rounds.
abbrev pub repeated : (count : ℕ) → Action → List Action
repeated zero c = []
repeated (suc count) c = c ∷ repeated count c

repeated-cons :
    (count : ℕ) (c : Action) (log : List Action)
    → repeated count c ++ (c ∷ log) ≡ c ∷ (repeated count c ++ log)
repeated-cons zero c log = refl
repeated-cons (suc count) c log = ap (◌∷◌ c) (repeated-cons count c log)

module _ (os : Os) where
  -- The broadcast of the text with its end.
  abbrev pub text : State → Action
  text s = sendto s.sock (datagram s.broadcast_ip test_message)

  -- After `rounds` broadcasts nothing but those has been called, and the callbacks and the mutex
  -- are as they were.
  abbrev pub Broadcast : ℕ → State → State → Type 0
  Broadcast rounds s t =
      (t.log ≡ repeated rounds (text s) ++ s.log)
      × (t.incoming_control ≡ s.incoming_control)
      × (t.incoming_data ≡ s.incoming_data)
      × (t.outgoing ≡ s.outgoing)
      × (t.lock ≡ s.lock)

  -- The state after one.
  abbrev once : State → State
  once s = record s { ip = os.inet_ntop s.broadcast_ip; log = text s ∷ s.log }

  broadcasts-Broadcast :
      (rounds : ℕ) (s : State)
      → os.inet_pton (os.inet_ntop s.broadcast_ip) ≡ s.broadcast_ip
      → Returns (λ _ t. Broadcast rounds s t) (broadcasts os rounds s)
  unfolding broadcasts
  broadcasts-Broadcast zero s e = (refl, refl, refl, refl, refl)
  broadcasts-Broadcast (suc rounds) s e =
      Returns-bind (Sent os test_message 13 s s.broadcast_ip) (λ _ t. Broadcast (suc rounds) s t)
        (send_broadcast os test_message 13) (λ _. broadcasts os rounds) s
        (send_broadcast_lem os test_message 13 s e)
        λ r t q.
          subst (λ u. Returns (λ _ v. Broadcast (suc rounds) s v) (broadcasts os rounds u))
            (sym q.1)
            (Returns-mono (λ _ v. Broadcast rounds (once s) v) (λ _ v. Broadcast (suc rounds) s v) _
              (broadcasts-Broadcast rounds (once s) e)
              λ _ v b. (b.0 ∙ repeated-cons rounds (text s) s.log, b.1, b.2, b.3, b.4))

  -- The calls of both registrations, where each thread is created.
  abbrev pub both_registered : State → List Action
  both_registered s =
      pthread_create out
      ∷ system queue_outgoing
      ∷ system accept_control
      ∷ pthread_create in_data
      ∷ pthread_create in_control
      ∷ incoming_filtered s

  -- Whether the threads for both functions of `RegisterIncomingCallback` are created.
  abbrev pub both_start : State → Bool
  both_start s =
      let first = pthread_create in_control ∷ incoming_filtered s in
      is_zero (os.result first) && is_zero (os.result (pthread_create in_data ∷ first))

  -- How the program goes on: the callbacks are both_registered, and each round sends the text.
  abbrev pub Serves : ℕ → State → Unit {0} → State → Type 0
  Serves rounds s x t =
      (t.log ≡ repeated rounds (text s) ++ both_registered s)
      × (t.incoming_control ≡ some in_function)
      × (t.incoming_data ≡ some in2_function)
      × (t.outgoing ≡ some out_function)

  -- From a state where the callbacks are both_registered.
  serves :
      (rounds : ℕ) (s u : State)
      → os.inet_pton (os.inet_ntop s.broadcast_ip) ≡ s.broadcast_ip
      → u.log ≡ both_registered s
      → u.sock ≡ s.sock
      → u.broadcast_ip ≡ s.broadcast_ip
      → u.incoming_control ≡ some in_function
      → u.incoming_data ≡ some in2_function
      → u.outgoing ≡ some out_function
      → Returns (Serves rounds s) (broadcasts os rounds u)
  serves rounds s u e log sock broadcast control data' outgoing =
      Returns-mono (λ _ t. Broadcast rounds u t) (Serves rounds s) _
        (broadcasts-Broadcast rounds u (rw broadcast e))
        λ _ t b. (b.0 ∙ rw (log, sock, broadcast) refl, b.1 ∙ control, b.2 ∙ data', b.3 ∙ outgoing)

  -- With the mutex free, and the broadcast address read back from its text: where the threads for
  -- both incoming callbacks are created the program registers its three callbacks and each round
  -- broadcasts the 13 bytes of the text, whether or not the third thread is created and the
  -- datagrams are sent. Where one of the two is not, the program waits for ever for the mutex, and
  -- broadcasts nothing.
  pub serve_lem :
      (rounds : ℕ) (s : State)
      → s.lock ≡ false
      → os.inet_pton (os.inet_ntop s.broadcast_ip) ≡ s.broadcast_ip
      → ((both_start s ≡ true) × Returns (Serves rounds s) (serve os rounds s))
        ⊎ ((both_start s ≡ false) × WaitsLocked (serve os rounds s))
  unfolding serve register_incoming_callback register_outgoing_callback start_thread call mutex_lock
      mutex_unlock
  serve_lem rounds s free e =
      elim (Bool-cases (is_zero (os.result (pthread_create in_control ∷ incoming_filtered s)))) [
        | inr refused ↦ inr (simp refused, simp (free, refused))
        | inl begun ↦ elim (Bool-cases (is_zero (os.result second))) [
          | inr refused ↦ inr (simp (begun, refused), simp (free, begun, refused))
          | inl also ↦ inl (
            simp (begun, also),
            elim (Bool-cases (is_zero (os.result (both_registered s)))) [
              | inl third ↦
                  simp (free, begun, also, third)
                    (serves rounds s _ e refl refl refl refl refl refl)
              | inr none' ↦
                  simp (free, begun, also, none')
                    (serves rounds s _ e refl refl refl refl refl refl)
            ],
          )
        ]
      ]
    where
      second : List Action
      second = pthread_create in_data ∷ pthread_create in_control ∷ incoming_filtered s
