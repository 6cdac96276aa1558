-- ===== src/Queue/Threads/Loop.antt =====
-- A thread's run as a whole, for callbacks that decide by their arguments alone.
use manet_testbed.Base.{
  ℕ, is_neg, is_zero, Bool, true, false, none, some, List, [], ◌∷◌, ◌++◌, if◌then◌else◌, ◌≡◌, refl,
  ◌∙◌, ◌==◌, ◌&&◌, take, length, Bool-cases, inl, inr,
}
use manet_testbed.Api.{
  State, CallbackFunction, Plane, in_control, in_data, out, for, Action, nfq_open, nfq_create_queue,
  nfq_set_queue_maxlen, nfq_set_mode, nfq_destroy_queue, nfq_close, Reply, failed, message, done,
  blocked, Os, call,
}
use manet_testbed.Queue.Handlers.{
  Packet, Netfilter, Arguments, User, nf_drop, arguments, is_own_broadcast, handle,
}
use manet_testbed.Queue.Handlers.Verdicts.{
  registered, filters_own, judged, verdict_of, handle_lem, handle-own,
}
use manet_testbed.Queue.Threads.{
  queue_len, nfqnl_copy_packet, packet_buffer, handle_all, receive_packets, thread_func,
}

-- The bytes of a packet that has some.
abbrev pub bytes : Packet → List ℕ
bytes packet = elim packet.payload [ none ↦ [] | some p_data ↦ p_data ]

-- Every packet has its bytes.
abbrev pub Whole : List Packet → Type 0
Whole [] = Unit {0}
Whole (packet ∷ packets) = (packet.payload ≡ some (bytes packet)) × Whole packets

-- The calls that set a queue up, the newest first.
abbrev pub set_up_of : Plane → ℕ → State → List Action
set_up_of plane number s =
    nfq_set_mode plane nfqnl_copy_packet 0xffff
    ∷ nfq_set_queue_maxlen plane queue_len
    ∷ nfq_create_queue plane number
    ∷ nfq_open plane
    ∷ s.log

module _ (nf : Netfilter) where
  -- Whether `recv` at last gives nothing or an error.
  abbrev pub closes : List Reply → Bool
  closes [] = false
  closes (failed ∷ rest) = true
  closes (message bs ∷ rest) = if length (take packet_buffer bs) == 0 then true else closes rest

  -- The packets received before that.
  abbrev pub queued : List Reply → List Packet
  queued [] = []
  queued (failed ∷ rest) = []
  queued (message bs ∷ rest) =
      let got = take packet_buffer bs in
      if length got == 0 then [] else nf.packets got ++ queued rest

  module _ (decide : CallbackFunction → Arguments → ℕ) (plane : Plane) (s : State)
      (callback : CallbackFunction) where
    -- The verdict that a packet is due: own broadcasts are dropped where the plane keeps them from
    -- the user, and the callback decides on all others.
    abbrev pub ruling : Packet → ℕ
    ruling packet =
        let args = arguments nf (bytes packet) in
        if filters_own plane && is_own_broadcast s args
        then nf_drop
        else verdict_of (decide callback args)

    -- One verdict for each packet, in their order, under the packet's id.
    abbrev pub rulings : List Packet → List Action → List Action
    rulings [] log = log
    rulings (packet ∷ packets) log = rulings packets (judged plane packet (ruling packet) log)

    pub rulings-append :
        (xs ys : List Packet) (log : List Action)
        → rulings (xs ++ ys) log ≡ rulings ys (rulings xs log)
    rulings-append [] ys log = refl
    rulings-append (x ∷ xs) ys log = rulings-append xs ys (judged plane x (ruling x) log)

    -- The state after the verdicts on packets, and after the calls of a log before them.
    abbrev pub ruled : List Packet → List Action → State
    ruled packets log = record s { log = rulings packets log }

registered-log :
    (plane : Plane) (s : State) (log : List Action)
    → registered plane (record s { log = log }) ≡ registered plane s
registered-log in_control s log = refl
registered-log in_data s log = refl
registered-log out s log = refl
registered-log for s log = refl

Whole-append : (xs ys : List Packet) → Whole (xs ++ ys) → Whole xs × Whole ys
Whole-append [] ys w = (tt, w)
Whole-append (x ∷ xs) ys w = let (wx, wy) = Whole-append xs ys w.1 in ((w.0, wx), wy)

module _ (os : Os) (nf : Netfilter) (user : User) (decide : CallbackFunction → Arguments → ℕ)
    (decides : (c : CallbackFunction) (args : Arguments) (t : State)
      → user c args t ≡ done (decide c args) t)
    (plane : Plane) (s : State) (callback : CallbackFunction)
    (set : registered plane s ≡ some callback) where
  handle-ruling :
      (packet : Packet) (log : List Action)
      → packet.payload ≡ some (bytes packet)
      → handle os nf user plane packet (record s { log = log }) ≡ (
          let log' = judged plane packet (ruling nf decide plane s callback packet) log in
          done (os.result log') (record s { log = log' }))
  unfolding is_own_broadcast
  handle-ruling packet log held =
      elim (Bool-cases (filters_own plane && is_own_broadcast s (arguments nf (bytes packet)))) [
        | inl own ↦
            handle-own os nf user packet (record s { log = log }) _ held plane own ∙ (rw own)
        | inr shown ↦
            handle_lem os nf user packet (record s { log = log }) _ held plane shown
              (registered-log plane s log ∙ set) (decides callback _ _)
            ∙ (rw shown)
      ]

  handle_all-rulings :
      (packets : List Packet) (log : List Action)
      → Whole packets
      → handle_all os nf user plane packets (record s { log = log })
        ≡ done tt (ruled nf decide plane s callback packets log)
  unfolding handle_all
  handle_all-rulings [] log whole = refl
  handle_all-rulings (packet ∷ packets) log whole =
      rw (handle-ruling packet log whole.0) (handle_all-rulings packets _ whole.1)

  abbrev Rules : List Reply → Type 0
  Rules replies =
      (log : List Action)
      → Whole (queued nf replies)
      → receive_packets os nf user plane replies (record s { log = log }) ≡ (
          let end = ruled nf decide plane s callback (queued nf replies) log in
          if closes nf replies then done tt end else blocked end)

  receive_packets-round : (bs : List ℕ) (rest : List Reply) → Rules rest → Rules (message bs ∷ rest)
  unfolding receive_packets
  receive_packets-round bs rest later log whole =
      elim (Bool-cases (length (take packet_buffer bs) == 0)) [
        | inl empty ↦ rw empty
        | inr full ↦
            let packets = nf.packets (take packet_buffer bs) in
            let parts = Whole-append packets (queued nf rest) (rw full at whole) in
            rw full (
              rw (handle_all-rulings packets log parts.0) (
                rw (rulings-append nf decide plane s callback packets (queued nf rest) log)
                  (later _ parts.1)))
      ]

  -- The loop gives every packet that it receives one verdict, under the packet's id and in the
  -- order received: NF_DROP for an own broadcast where the plane keeps those from the user, and
  -- what the registered callback decides for any other. It ends exactly if `recv` at last gives
  -- nothing or an error, and waits for ever if not. This holds where the plane has a callback, every
  -- packet has its bytes, and the callbacks decide by their arguments alone.
  pub receive_packets-rulings :
      (replies : List Reply) (log : List Action)
      → Whole (queued nf replies)
      → receive_packets os nf user plane replies (record s { log = log }) ≡ (
          let end = ruled nf decide plane s callback (queued nf replies) log in
          if closes nf replies then done tt end else blocked end)
  unfolding receive_packets
  receive_packets-rulings [] log whole = refl
  receive_packets-rulings (failed ∷ rest) log whole = refl
  receive_packets-rulings (message bs ∷ rest) log whole =
      receive_packets-round bs rest (receive_packets-rulings rest) log whole

  -- Where its queue is opened and set up, a thread function gives every packet that it receives its
  -- one verdict, in order. If `recv` at last gives nothing or an error, it destroys the queue and
  -- closes the library, in that order, and returns; if not, it waits for ever. This holds where the
  -- plane has a callback, every packet has its bytes, and the callbacks decide by their arguments
  -- alone.
  pub thread_func_lem :
      (number : ℕ) (replies : List Reply)
      → is_zero (os.result (nfq_open plane ∷ s.log)) ≡ false
      → is_zero (os.result (nfq_create_queue plane number ∷ nfq_open plane ∷ s.log)) ≡ false
      → is_neg (os.result (set_up_of plane number s)) ≡ false
      → Whole (queued nf replies)
      → thread_func os nf user plane number replies s ≡ (
          let judged' =
            ruled nf decide plane s callback (queued nf replies) (set_up_of plane number s) in
          if closes nf replies
          then done tt
              (record judged' { log = nfq_close plane ∷ nfq_destroy_queue plane ∷ judged'.log })
          else blocked judged')
  unfolding thread_func call
  thread_func_lem number replies opened created copies whole =
      rw (opened, created, copies)
        (rw (receive_packets-rulings replies (set_up_of plane number s) whole)
          (elim (Bool-cases (closes nf replies)) [ inl e ↦ rw e | inr e ↦ rw e ]))
