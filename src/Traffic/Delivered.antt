-- ===== src/Traffic/Delivered.antt =====
-- Where one thread sends, its datagrams go where they are meant to, whatever the others do.
use manet_testbed.Base.{
  ℕ, Option, none, some, List, [], ◌∷◌, ◌++◌, ◌≡◌, refl, sym, ap, ◌∙◌, inl, inr,
}
use manet_testbed.Netlink.{Netlink}
use manet_testbed.Api.{State, Datagram, CallbackFunction, Os, call}
use manet_testbed.Queue.Handlers.{Netfilter}
use manet_testbed.Interleaving.Schedule.{World, runs, move}
use manet_testbed.Queue.Handlers.Verdicts.{registered}
use manet_testbed.Traffic.Invariant.{IsInvariant, course-invariant}
use manet_testbed.Traffic.{
  Departure, unicast, broadcast, SendPoint, first_send, Task, unoccupied, tests_own, asks_user,
  in_callback, rules, enter_callback, step_task, Program, update, Step, task_on, course, idle,
}
use manet_testbed.Traffic.Spared.{datagrams, runs-Spares, begins-shared}
use manet_testbed.Traffic.Owed.{
  destination, meant, all_meant, IsReadable, OnlySends, MaySend, OnlySends-each, owed, Named,
  Unsent, spared-Balanced, moved-Balanced, send_on-Balanced, Balanced,
}

module _ (os : Os) where
  module _ (k b : ℕ) (old : List Datagram) where
    abbrev Kept : Program → Type 0
    Kept = Balanced os k b old

    first_send-Named :
        (d : Departure) → IsReadable os (destination b d) → Named os b (some (first_send d))
    unfolding first_send
    first_send-Named (unicast a msg_buf size) h = h
    first_send-Named (broadcast msg_buf size) h = h

    first_send-owed :
        (d : Departure) (s : State)
        → s.broadcast_ip ≡ b
        → owed os (some (first_send d)) s ≡ meant b d ∷ []
    unfolding first_send
    first_send-owed (unicast a msg_buf size) s h = refl
    first_send-owed (broadcast msg_buf size) s h = rw h refl

    task_on-Balanced :
        (nf : Netfilter) (x : Program) (i : ℕ) (task : Task)
        → Kept x
        → Kept (task_on i (step_task nf os task x.world.shared) x)
    unfolding step_task call datagrams
    task_on-Balanced nf x i unoccupied v =
        spared-Balanced os k b old x _ refl refl (refl, refl, refl) v
    task_on-Balanced nf x i (tests_own plane id p_data) v =
        spared-Balanced os k b old x _ refl refl (refl, refl, refl) v
    task_on-Balanced nf x i (asks_user plane id args) v = asked (registered plane x.world.shared)
      where
        asked :
            (cb : Option CallbackFunction)
            → Kept (task_on i (enter_callback plane id args cb x.world.shared) x)
        asked none = spared-Balanced os k b old x _ refl refl (refl, refl, refl) v
        asked (some callback) = spared-Balanced os k b old x _ refl refl (refl, refl, refl) v
    task_on-Balanced nf x i (in_callback plane id callback args) v =
        spared-Balanced os k b old x _ refl refl (refl, refl, refl) v
    task_on-Balanced nf x i (rules plane id verdict) v =
        spared-Balanced os k b old x _ refl refl (refl, refl, refl) v

    departs-Balanced :
        (x : Program) (i : ℕ) (d : Departure)
        → i ≡ k
        → x.sends i ≡ none
        → IsReadable os (destination b d)
        → Kept x
        → Kept (record x {
          sends = update i (some (first_send d)) x.sends;
          departed = (i, d) ∷ x.departed;
        })
    departs-Balanced x i d mine idle readable v =
        let nothing : x.sends k ≡ none = ap x.sends (sym mine) ∙ idle in
        moved-Balanced os k b old x _ (some (first_send d))
          (ap (λ j. update j (some (first_send d)) x.sends) mine) v.same
          (first_send-Named d readable)
          (rw (first_send-owed d x.world.shared v.same)
            (ap (λ l. meant b d ∷ l) (rw nothing at v.balanced)))
          v

    never : (p : Option SendPoint) (q : SendPoint) → p ≡ some q → p ≡ none → ⊥
    never p q e f = cc

    ran : (nl : Netlink) (w : World) (i : ℕ) → Unsent os w.shared (move os nl (runs i) w).shared
    ran nl w i = let h = runs-Spares os nl w i in (h.0, h.1, h.2)

    Balanced-IsInvariant :
        (nl : Netlink) (nf : Netfilter) → IsInvariant os nl nf (MaySend os k b) Kept
    Balanced-IsInvariant nl nf = record {
      by_call = λ x i c v.
          let same = begins-shared os nl x.world i c in
          spared-Balanced os k b old x _ refl refl
            (
              ap (λ (s : State). s.ip) same,
              ap (λ (s : State). s.broadcast_ip) same,
              ap (λ (s : State). datagrams s.log) same,
            )
            v;
      by_departure = λ x i d (mine, readable) free v. departs-Balanced x i d mine free readable v;
      by_arrival = λ x i plane packet bs allowed idle v.
          spared-Balanced os k b old x _ refl refl (refl, refl, refl) v;
      by_answer = λ x i ret v. spared-Balanced os k b old x _ refl refl (refl, refl, refl) v;
      by_send = λ x i p e v. elim (v.only i) [
        | inl same ↦ rw same (send_on-Balanced os k b old x p (ap x.sends (sym same) ∙ e) v)
        | inr idle ↦ absurd (never (x.sends i) p e idle)
      ];
      by_task = λ x i task e at v. task_on-Balanced nf x i task v;
      by_run = λ x i v. spared-Balanced os k b old x _ refl refl (ran nl x.world i) v;
      by_crash = λ x i at v. spared-Balanced os k b old x _ refl refl (refl, refl, refl) v;
    }

  -- Threads that are in no call and have no packet at first make the calls that take the mutex, send,
  -- and handle packets, in any order of their steps. Where one thread alone sends, and `inet_pton` reads
  -- back each address that it sends to from what `inet_ntop` writes, then while it is in no send, the
  -- datagrams sent are those that its calls meant, in the order of the calls: each to the address given
  -- or to the broadcast address, with the first `size` bytes of the message.
  pub course-delivered :
      (nl : Netlink) (nf : Netfilter) (s : State) (count k : ℕ) (ms : List Step)
      → OnlySends os k s.broadcast_ip ms
      → (course os nl nf ms (idle count s)).sends k ≡ none
      → datagrams (course os nl nf ms (idle count s)).world.shared.log
        ≡ all_meant s.broadcast_ip (course os nl nf ms (idle count s)).departed ++ datagrams s.log
  course-delivered nl nf s count k ms h finished =
      let start : Balanced os k s.broadcast_ip (datagrams s.log) (idle count s) = record {
        only = λ j. inr refl;
        same = refl;
        named = tt;
        balanced = refl;
      } in
      let b = s.broadcast_ip in
      let v =
        course-invariant os nl nf (MaySend os k b) _
          (Balanced-IsInvariant k b (datagrams s.log) nl nf) (OnlySends os k b)
          (OnlySends-each os k b) ms (idle count s) h start in
      rw finished at v.balanced
