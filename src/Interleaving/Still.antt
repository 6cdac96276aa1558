-- ===== src/Interleaving/Still.antt =====
-- What the steps of a thread that holds the mutex leave alone: the mutex itself, and, where they
-- parse, the replies that the kernel still has, the number of the call, the text of `ntop` and the broadcast
-- address.
use manet_testbed.Base.{
  ℕ, zero, suc, false, List, [], ◌∷◌, ◌≡◌, refl, ◌==◌, ◌&&◌, not, to_size, is_zero, inl, inr, u32,
  Bool-cases, arith,
}
use manet_testbed.Netlink.{Mem, Netlink, nlmsg_error, nlmsg_done, rtm_newaddr}
use manet_testbed.Api.{
  State, Reply, failed, message, Plane, in_control, in_data, out, for, pthread_create, Os, Run,
  done, blocked, fault, out_of_fuel, pure, and_then, call, check, receive, get_msg, mutex_unlock,
}
use manet_testbed.Api.Laws.{Leaves, Leaves-bind, Leaves-mono}
use manet_testbed.Iface.{
  get_ip, for_each_rattr, parse_ifa_msg, parse_nl_if_msg_from, parse_nl_if_msg,
}
use manet_testbed.Route.{form_request, note_error}
use manet_testbed.Queue.Register.{start_thread}
use manet_testbed.Interleaving.{
  in_route, in_query, in_registration, Point, asks_route, checks_request, awaits_answer,
  checks_answer, notes_answer, enters, sets_name, asks_address, checks_sent, awaits_dump,
  checks_dump, parses_dump, frees_queried, filters_first, filters_rest, keeps_control,
  starts_control, keeps_data, keeps_outgoing, keeps_forwarded, starts_data, starts_outgoing,
  starts_forwarded, frees_registered, frees_changed, Next, goes, ends, to_callback, advance,
}

abbrev pub Still : State → State → Type 0
Still s t =
    (t.lock ≡ s.lock)
    × (t.inbox ≡ s.inbox)
    × (t.log ≡ s.log)
    × (is_zero s.f_err ≡ false → is_zero t.f_err ≡ false)
    × (t.frame ≡ s.frame)
    × (t.ip ≡ s.ip)
    × (t.broadcast_ip ≡ s.broadcast_ip)
    × (t.local_ip ≡ s.local_ip)

module _ (nl : Netlink) (buf : Mem) (type : ℕ) where
  for_each_rattr-Still :
      (rounds rta len : ℕ) (s t : State)
      → Still s t
      → Leaves (Still s) (for_each_rattr nl rounds buf type rta len t)
  unfolding for_each_rattr
  for_each_rattr-Still zero rta len s t c = c
  for_each_rattr-Still (suc rounds) rta len s t c = elim (Bool-cases (nl.rta_ok buf rta len)) [
    | inl go ↦ rw go (for_each_rattr-Still rounds _ _ s _ c)
    | inr stop ↦ rw stop c
  ]

  module _ (os : Os) where
    parse_ifa_msg-Still :
        (ifa rta len : ℕ) (s t : State)
        → Still s t
        → Leaves (Still s) (parse_ifa_msg os nl buf ifa rta len type t)
    unfolding parse_ifa_msg
    parse_ifa_msg-Still ifa rta len s t c =
        elim (Bool-cases (nl.ifa_index buf ifa == os.if_nametoindex t.log t.interface_name)) [
          | inl ours ↦ rw ours (for_each_rattr-Still (suc len) rta len s t c)
          | inr other ↦
              rw other (elim (Bool-cases (os.if_nametoindex t.log t.interface_name == 0)) [
                | inl unknown ↦ rw unknown (c.0, c.1, c.2, (λ _. refl), c.4, c.5, c.6, c.7)
                | inr known ↦ rw known c
              ])
        ]

    pub parse_nl_if_msg_from-Still :
        (rounds p len : ℕ) (s t : State)
        → Still s t
        → Leaves (Still s) (parse_nl_if_msg_from os nl rounds buf type p len t)
    unfolding parse_nl_if_msg_from
    parse_nl_if_msg_from-Still zero p len s t c = c
    parse_nl_if_msg_from-Still (suc rounds) p len s t c =
        elim (Bool-cases (nl.nlmsg_ok buf p (u32 len) && not (nl.nlmsg_type buf p == nlmsg_done))) [
          | inr stop ↦ rw stop c
          | inl go ↦ rw go (elim (Bool-cases (nl.nlmsg_type buf p == nlmsg_error)) [
            | inl error ↦ rw error (c.0, c.1, c.2, (λ _. refl), c.4, c.5, c.6, c.7)
            | inr fine ↦ rw fine (elim (Bool-cases (nl.nlmsg_type buf p == rtm_newaddr)) [
              | inl address ↦ rw address (
                  Leaves-bind (Still s) (parse_ifa_msg os nl buf _ _ _ type) _ t
                    (parse_ifa_msg-Still _ _ _ s t c)
                    λ _ u d. parse_nl_if_msg_from-Still rounds _ _ s u d)
              | inr other ↦ rw other (parse_nl_if_msg_from-Still rounds _ _ s t c)
            ])
          ])
        ]

    pub parse_nl_if_msg-Still :
        (len : ℕ) (s : State) → Leaves (Still s) (parse_nl_if_msg os nl buf len type s)
    unfolding parse_nl_if_msg
    parse_nl_if_msg-Still len s =
        parse_nl_if_msg_from-Still (suc len) 0 len s s
          (refl, refl, refl, (λ h. h), refl, refl, refl, refl)

-- If a step goes on with the mutex held, the state there satisfies `P`.
abbrev pub Going : (State → Type 0) → Run Next → Type 0
Going P (done (goes p) t) = P t
Going P _ = Unit {0}

next-Going : (P : State → Type 0) (n : Next) (t : State) → P t → Going P (done n t)
next-Going P (goes p) t h = h
next-Going P (ends e) t h = tt

bind-Going :
    {A : Type 0} (P : State → Type 0) (f : A → Next) (r : Run A)
    → Leaves P r
    → Going P (and_then r (λ a. pure (f a)))
bind-Going P f (done a t) h = next-Going P (f a) t h
bind-Going P f (blocked t) h = tt
bind-Going P f (fault t) h = tt
bind-Going P f (out_of_fuel t) h = tt

abbrev pub SameLock : State → State → Type 0
SameLock s t = t.lock ≡ s.lock

module _ (os : Os) (nl : Netlink) where
  pub start_thread-SameLock :
      (plane : Plane) (store : ℕ → State → State) (s : State)
      → ((n : ℕ) (t : State) → (store n t).lock ≡ t.lock)
      → Leaves (SameLock s) (start_thread os plane store s)
  unfolding start_thread call
  start_thread-SameLock plane store s keeps =
      elim (Bool-cases (is_zero (os.result (pthread_create plane ∷ s.log)))) [
        | inl created ↦ rw created (keeps _ _)
        | inr not_created ↦ rw not_created refl
      ]

  pub get_msg-SameLock : (buf : Mem) (s : State) → Leaves (SameLock s) (get_msg buf s)
  unfolding get_msg receive
  get_msg-SameLock buf s = received s.inbox
    where
      received : (replies : List Reply) → Leaves (SameLock s) (receive buf s replies)
      received [] = refl
      received (failed ∷ rest) = refl
      received (message bs ∷ rest) = refl

  -- A step that goes on holds the mutex as before.
  pub advance-SameLock : (p : Point) (s : State) → Going (SameLock s) (advance os nl p s)
  unfolding advance form_request get_ip check call note_error mutex_unlock
  advance-SameLock (in_route (asks_route stack dest hop action)) s = refl
  advance-SameLock (in_route (checks_request sent stack)) s = refl
  advance-SameLock (in_route (awaits_answer stack)) s =
      bind-Going (SameLock s) _ (get_msg stack s) (get_msg-SameLock stack s)
  advance-SameLock (in_route (checks_answer len buf)) s = refl
  advance-SameLock (in_route (notes_answer len buf)) s = ground arith
  advance-SameLock (in_route frees_changed) s = tt
  advance-SameLock (in_query (enters stack interface type)) s = refl
  advance-SameLock (in_query (sets_name frame stack interface type)) s = refl
  advance-SameLock (in_query (asks_address frame stack type)) s = refl
  advance-SameLock (in_query (checks_sent frame sent stack type)) s = refl
  advance-SameLock (in_query (awaits_dump frame buf type)) s =
      bind-Going (SameLock s) _ (get_msg buf s) (get_msg-SameLock buf s)
  advance-SameLock (in_query (checks_dump frame len buf type)) s = refl
  advance-SameLock (in_query (parses_dump frame len buf type)) s =
      bind-Going (SameLock s) _ (parse_nl_if_msg os nl buf (to_size len) type s) (
        Leaves-mono (Still s) (SameLock s) (parse_nl_if_msg os nl buf (to_size len) type s)
          (parse_nl_if_msg-Still nl buf type os (to_size len) s) (λ t h. h.0))
  advance-SameLock (in_query (frees_queried frame buf)) s = tt
  advance-SameLock (in_registration (filters_first g)) s = refl
  advance-SameLock (in_registration (filters_rest g)) s =
      next-Going (SameLock s) (to_callback g) _ refl
  advance-SameLock (in_registration (keeps_control callback d)) s = refl
  advance-SameLock (in_registration (starts_control d)) s =
      bind-Going (SameLock s) _ (start_thread os in_control _ s)
        (start_thread-SameLock in_control _ s (λ n t. refl))
  advance-SameLock (in_registration (keeps_data callback)) s = refl
  advance-SameLock (in_registration starts_data) s =
      bind-Going (SameLock s) _ (start_thread os in_data _ s)
        (start_thread-SameLock in_data _ s (λ n t. refl))
  advance-SameLock (in_registration (keeps_outgoing callback)) s = refl
  advance-SameLock (in_registration starts_outgoing) s =
      bind-Going (SameLock s) _ (start_thread os out _ s)
        (start_thread-SameLock out _ s (λ n t. refl))
  advance-SameLock (in_registration (keeps_forwarded callback)) s = refl
  advance-SameLock (in_registration starts_forwarded) s =
      bind-Going (SameLock s) _ (start_thread os for _ s)
        (start_thread-SameLock for _ s (λ n t. refl))
  advance-SameLock (in_registration frees_registered) s = tt
