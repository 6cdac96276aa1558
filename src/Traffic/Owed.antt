-- ===== src/Traffic/Owed.antt =====
-- What holds between the steps of the one thread that sends: the datagrams sent, and the one that its
-- send is still to make, are those that its calls mean to send.
use manet_testbed.Base.{
  ℕ, Option, none, some, List, [], ◌∷◌, ◌++◌, ◌≡◌, refl, ◌∙◌, ◌⊎◌, inl, inr, ◌==◌, ==_iff, ==_self,
  Bool-cases, take,
}
use manet_testbed.Api.{State, Datagram, Os, call, ntop}
use manet_testbed.Send.Delivery.{datagram}
use manet_testbed.Traffic.{
  Departure, unicast, broadcast, SendPoint, reads_broadcast, names_address, reads_text, sends_to,
  makes_result, step_send, Program, update, Step, calls, arrives, answers, proceeds, departs,
  send_on,
}
use manet_testbed.Traffic.Spared.{datagrams}

-- Where a call means to send, and its datagram; `b` is the broadcast address.
abbrev pub destination : (b : ℕ) → Departure → ℕ
destination b (unicast dest_address msg_buf size) = dest_address
destination b (broadcast msg_buf size) = b

abbrev pub meant : (b : ℕ) → Departure → Datagram
meant b (unicast dest_address msg_buf size) = datagram dest_address (take size msg_buf)
meant b (broadcast msg_buf size) = datagram b (take size msg_buf)

-- The datagrams that calls mean to send.
abbrev pub all_meant : (b : ℕ) → List (ℕ × Departure) → List Datagram
all_meant b [] = []
all_meant b ((i, d) ∷ ds) = meant b d ∷ all_meant b ds

module _ (os : Os) where
  abbrev pub IsReadable : ℕ → Type 0
  IsReadable a = os.inet_pton (os.inet_ntop a) ≡ a

  -- Only thread `k` sends, and to addresses that are read back from their text.
  abbrev pub OnlySends : (k b : ℕ) → List Step → Type 0
  OnlySends k b [] = Unit {0}
  OnlySends k b (departs i d ∷ ms) = (i ≡ k) × IsReadable (destination b d) × OnlySends k b ms
  OnlySends k b (_ ∷ ms) = OnlySends k b ms

  abbrev pub MaySend : (k b : ℕ) → Step → Type 0
  MaySend k b (departs i d) = (i ≡ k) × IsReadable (destination b d)
  MaySend k b _ = Unit {0}

  pub OnlySends-each :
      (k b : ℕ) (m : Step) (ms : List Step)
      → OnlySends k b (m ∷ ms)
      → MaySend k b m × OnlySends k b ms
  OnlySends-each k b (calls i c) ms h = (tt, h)
  OnlySends-each k b (departs i d) ms h = ((h.0, h.1), h.2)
  OnlySends-each k b (arrives i plane packet) ms h = (tt, h)
  OnlySends-each k b (answers i ret) ms h = (tt, h)
  OnlySends-each k b (proceeds i) ms h = (tt, h)

  -- The datagram that a send is still to make.
  abbrev pub owed : Option SendPoint → State → List Datagram
  owed none s = []
  owed (some (reads_broadcast msg_buf size)) s = datagram s.broadcast_ip (take size msg_buf) ∷ []
  owed (some (names_address a msg_buf size)) s = datagram a (take size msg_buf) ∷ []
  owed (some (reads_text msg_buf size)) s = datagram (os.inet_pton s.ip) (take size msg_buf) ∷ []
  owed (some (sends_to a msg_buf size)) s = datagram a (take size msg_buf) ∷ []
  owed (some (makes_result r)) s = []

  abbrev pub Named : (b : ℕ) → Option SendPoint → Type 0
  Named b (some (reads_broadcast msg_buf size)) = IsReadable b
  Named b (some (names_address a msg_buf size)) = IsReadable a
  Named b _ = Unit {0}

  -- What the sends depend on.
  abbrev pub Unsent : State → State → Type 0
  Unsent s t =
      (t.ip ≡ s.ip) × (t.broadcast_ip ≡ s.broadcast_ip) × (datagrams t.log ≡ datagrams s.log)

  module _ (k b : ℕ) (old : List Datagram) where
    -- What holds between any two steps.
    pub record Balanced (x : Program) : Type 0 where
      pub only : (j : ℕ) → (j ≡ k) ⊎ (x.sends j ≡ none)
      pub same : x.world.shared.broadcast_ip ≡ b
      pub named : Named b (x.sends k)
      pub balanced :
          owed (x.sends k) x.world.shared ++ datagrams x.world.shared.log
          ≡ all_meant b x.departed ++ old

    owed-spared : (p : Option SendPoint) (s t : State) → Unsent s t → owed p t ≡ owed p s
    owed-spared none s t h = refl
    owed-spared (some (reads_broadcast msg_buf size)) s t h = rw h.1 refl
    owed-spared (some (names_address a msg_buf size)) s t h = refl
    owed-spared (some (reads_text msg_buf size)) s t h = rw h.0 refl
    owed-spared (some (sends_to a msg_buf size)) s t h = refl
    owed-spared (some (makes_result r)) s t h = refl

    -- The world and the tasks go on, and the sends stay.
    pub spared-Balanced :
        (x y : Program)
        → y.sends ≡ x.sends
        → y.departed ≡ x.departed
        → Unsent x.world.shared y.world.shared
        → Balanced x
        → Balanced y
    spared-Balanced x y sends departed h v = record {
      only = λ j. rw sends (v.only j);
      same = h.1 ∙ v.same;
      named = rw sends v.named;
      balanced =
          rw (sends, departed, owed-spared (x.sends k) x.world.shared y.world.shared h, h.2)
            v.balanced;
    }

    -- Thread `k` goes to another point of a send, or out of it.
    pub moved-Balanced :
        (x y : Program) (p : Option SendPoint)
        → y.sends ≡ update k p x.sends
        → y.world.shared.broadcast_ip ≡ b
        → Named b p
        → owed p y.world.shared ++ datagrams y.world.shared.log ≡ all_meant b y.departed ++ old
        → Balanced x
        → Balanced y
    moved-Balanced x y p sends same named balanced v = record {
      only = λ j. elim (Bool-cases (j == k)) [
        | inl here ↦ inl ((==_iff j k).0 here)
        | inr other ↦ rw (sends, other) (v.only j)
      ];
      same = same;
      named = rw (sends, ==_self k) named;
      balanced = rw (sends, ==_self k) balanced;
    }

    pub send_on-Balanced :
        (x : Program) (p : SendPoint)
        → x.sends k ≡ some p
        → Balanced x
        → Balanced (send_on k (step_send os p x.world.shared) x)
    unfolding step_send ntop call datagrams
    send_on-Balanced x (reads_broadcast msg_buf size) e v =
        let to_b : IsReadable b = rw e at v.named in
        moved-Balanced x _ (some (names_address x.world.shared.broadcast_ip msg_buf size)) refl
          v.same (rw v.same to_b) (rw e at v.balanced) v
    send_on-Balanced x (names_address a msg_buf size) e v =
        let readable : IsReadable a = rw e at v.named in
        moved-Balanced x _ (some (reads_text msg_buf size)) refl v.same tt
          (rw readable (rw e at v.balanced)) v
    send_on-Balanced x (reads_text msg_buf size) e v =
        moved-Balanced x _ (some (sends_to (os.inet_pton x.world.shared.ip) msg_buf size)) refl
          v.same tt (rw e at v.balanced) v
    send_on-Balanced x (sends_to a msg_buf size) e v =
        moved-Balanced x _ (some (makes_result _)) refl v.same tt (rw e at v.balanced) v
    send_on-Balanced x (makes_result r) e v =
        moved-Balanced x _ none refl v.same tt (rw e at v.balanced) v
