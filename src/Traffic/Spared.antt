-- ===== src/Traffic/Spared.antt =====
-- What calls that take the mutex spare: the text of `ntop`, the two addresses, the datagrams sent and
-- the verdicts given.
use manet_testbed.Base.{
  ℕ, List, [], ◌∷◌, ◌≡◌, refl, to_size, is_zero, inl, inr, Bool-cases, arith, ltb, ap,
}
use manet_testbed.Netlink.{Mem, Netlink}
use manet_testbed.Api.{
  State, Action, Datagram, sendto, nfq_set_verdict, Reply, failed, message, Plane, in_control,
  in_data, out, for, pthread_create, Os, Run, done, blocked, fault, out_of_fuel, call, check,
  receive, get_msg, mutex_unlock,
}
use manet_testbed.Api.Laws.{Leaves, Leaves-mono}
use manet_testbed.Iface.{get_ip, parse_nl_if_msg}
use manet_testbed.Route.{form_request, note_error}
use manet_testbed.Queue.Register.{start_thread}
use manet_testbed.Interleaving.{
  in_route, in_query, in_registration, Point, asks_route, checks_request, awaits_answer,
  checks_answer, notes_answer, enters, sets_name, asks_address, checks_sent, awaits_dump,
  checks_dump, parses_dump, frees_queried, filters_first, filters_rest, keeps_control,
  starts_control, keeps_data, keeps_outgoing, keeps_forwarded, starts_data, starts_outgoing,
  starts_forwarded, frees_registered, frees_changed, Next, goes, ends, reads_error, reads_address,
  gives, Call, advance,
}
use manet_testbed.Interleaving.Still.{Still, parse_nl_if_msg-Still}
use manet_testbed.Interleaving.Noted.{bind-Leaves}
use manet_testbed.Interleaving.Schedule.{World, begins, runs, move}
use manet_testbed.Interleaving.Schedule.{
  Place, outside, waits, inside, leaves, crashed, live, step, give, take_step, call_at,
}
use manet_testbed.Interleaving.Serial.{mutex_lock-cases}
use manet_testbed.System.Misread.{read_result}

-- The datagrams and the verdicts of a history, the newest first.
unfoldable pub datagrams : List Action → List Datagram
datagrams [] = []
datagrams (sendto sock d ∷ log) = d ∷ datagrams log
datagrams (_ ∷ log) = datagrams log

unfoldable pub verdicts : List Action → List (Plane × ℕ × ℕ)
verdicts [] = []
verdicts (nfq_set_verdict plane id verdict ∷ log) = (plane, id, verdict) ∷ verdicts log
verdicts (_ ∷ log) = verdicts log

abbrev pub Spares : State → State → Type 0
Spares s t =
    (t.ip ≡ s.ip)
    × (t.broadcast_ip ≡ s.broadcast_ip)
    × (datagrams t.log ≡ datagrams s.log)
    × (verdicts t.log ≡ verdicts s.log)
    × (t.local_ip ≡ s.local_ip)

module _ (os : Os) (nl : Netlink) where
  start_thread-Spares :
      (plane : Plane) (store : ℕ → State → State) (s : State)
      → ((n : ℕ) (t : State) → Spares t (store n t))
      → Leaves (Spares s) (start_thread os plane store s)
  unfolding start_thread call datagrams verdicts
  start_thread-Spares plane store s keeps =
      elim (Bool-cases (is_zero (os.result (pthread_create plane ∷ s.log)))) [
        | inl created ↦ rw created (keeps _ _)
        | inr not_created ↦ rw not_created (refl, refl, refl, refl, refl)
      ]

  get_msg-Spares : (buf : Mem) (s : State) → Leaves (Spares s) (get_msg buf s)
  unfolding get_msg receive
  get_msg-Spares buf s = received s.inbox
    where
      received : (replies : List Reply) → Leaves (Spares s) (receive buf s replies)
      received [] = (refl, refl, refl, refl, refl)
      received (failed ∷ rest) = (refl, refl, refl, refl, refl)
      received (message bs ∷ rest) = (refl, refl, refl, refl, refl)

  advance-Spares : (p : Point) (s : State) → Leaves (Spares s) (advance os nl p s)
  unfolding advance form_request get_ip check call note_error mutex_unlock datagrams verdicts
  advance-Spares (in_route (asks_route stack dest hop action)) s = (refl, refl, refl, refl, refl)
  advance-Spares (in_route (checks_request sent stack)) s = (refl, refl, refl, refl, refl)
  advance-Spares (in_route (awaits_answer stack)) s =
      bind-Leaves (Spares s) _ (get_msg stack s) (get_msg-Spares stack s)
  advance-Spares (in_route (checks_answer len buf)) s = (refl, refl, refl, refl, refl)
  advance-Spares (in_route (notes_answer len buf)) s = ground arith
  advance-Spares (in_route frees_changed) s = (refl, refl, refl, refl, refl)
  advance-Spares (in_query (enters stack interface type)) s = (refl, refl, refl, refl, refl)
  advance-Spares (in_query (sets_name frame stack interface type)) s =
      (refl, refl, refl, refl, refl)
  advance-Spares (in_query (asks_address frame stack type)) s = (refl, refl, refl, refl, refl)
  advance-Spares (in_query (checks_sent frame sent stack type)) s = (refl, refl, refl, refl, refl)
  advance-Spares (in_query (awaits_dump frame buf type)) s =
      bind-Leaves (Spares s) _ (get_msg buf s) (get_msg-Spares buf s)
  advance-Spares (in_query (checks_dump frame len buf type)) s = (refl, refl, refl, refl, refl)
  advance-Spares (in_query (parses_dump frame len buf type)) s =
      bind-Leaves (Spares s) _ (parse_nl_if_msg os nl buf (to_size len) type s) (
        Leaves-mono (Still s) (Spares s) (parse_nl_if_msg os nl buf (to_size len) type s)
          (parse_nl_if_msg-Still nl buf type os (to_size len) s)
          λ t h. (h.5, h.6, ap datagrams h.2, ap verdicts h.2, h.7))
  advance-Spares (in_query (frees_queried frame buf)) s = (refl, refl, refl, refl, refl)
  advance-Spares (in_registration (filters_first g)) s = (refl, refl, refl, refl, refl)
  advance-Spares (in_registration (filters_rest g)) s = (refl, refl, refl, refl, refl)
  advance-Spares (in_registration (keeps_control callback d)) s = (refl, refl, refl, refl, refl)
  advance-Spares (in_registration (starts_control d)) s =
      bind-Leaves (Spares s) _ (start_thread os in_control _ s)
        (start_thread-Spares in_control _ s λ n t. (refl, refl, refl, refl, refl))
  advance-Spares (in_registration (keeps_data callback)) s = (refl, refl, refl, refl, refl)
  advance-Spares (in_registration starts_data) s =
      bind-Leaves (Spares s) _ (start_thread os in_data _ s)
        (start_thread-Spares in_data _ s λ n t. (refl, refl, refl, refl, refl))
  advance-Spares (in_registration (keeps_outgoing callback)) s = (refl, refl, refl, refl, refl)
  advance-Spares (in_registration starts_outgoing) s =
      bind-Leaves (Spares s) _ (start_thread os out _ s)
        (start_thread-Spares out _ s λ n t. (refl, refl, refl, refl, refl))
  advance-Spares (in_registration (keeps_forwarded callback)) s = (refl, refl, refl, refl, refl)
  advance-Spares (in_registration starts_forwarded) s =
      bind-Leaves (Spares s) _ (start_thread os for _ s)
        (start_thread-Spares for _ s λ n t. (refl, refl, refl, refl, refl))
  advance-Spares (in_registration frees_registered) s = (refl, refl, refl, refl, refl)

  spared :
      (w : World) (i turn : ℕ) (r : Run Next)
      → Leaves (Spares w.shared) r
      → Spares w.shared (step w i turn r).shared
  spared w i turn (done (goes p) t) h = h
  spared w i turn (done (ends e) t) h = h
  spared w i turn (blocked t) h = (refl, refl, refl, refl, refl)
  spared w i turn (fault t) h = h
  spared w i turn (out_of_fuel t) h = h

  take_step-Spares :
      (w : World) (i : ℕ) (at : Place) → Spares w.shared (take_step os nl at i w).shared
  unfolding take_step
  take_step-Spares w i outside = (refl, refl, refl, refl, refl)
  take_step-Spares w i crashed = (refl, refl, refl, refl, refl)
  take_step-Spares w i (waits c) = elim (mutex_lock-cases w.shared) [
    | inl waiting ↦ rw waiting (refl, refl, refl, refl, refl)
    | inr (free, taken) ↦ rw taken (refl, refl, refl, refl, refl)
  ]
  take_step-Spares w i (inside turn p) =
      spared w i turn (advance os nl p w.shared) (advance-Spares p w.shared)
  take_step-Spares w i (leaves turn reads_error) = (refl, refl, refl, refl, refl)
  take_step-Spares w i (leaves turn (gives n)) = (refl, refl, refl, refl, refl)
  take_step-Spares w i (leaves turn (reads_address frame buf)) =
      given (read_result (live w.count w.places) w.shared)
    where
      given : (r : Run ℕ) → Spares w.shared (give w i turn r).shared
      given (done address t) = (refl, refl, refl, refl, refl)
      given (blocked t) = (refl, refl, refl, refl, refl)
      given (fault t) = (refl, refl, refl, refl, refl)
      given (out_of_fuel t) = (refl, refl, refl, refl, refl)

  call_at-shared :
      (w : World) (i : ℕ) (c : Call) (at : Place) → (call_at os nl at i c w).shared ≡ w.shared
  call_at-shared w i c outside = elim (Bool-cases (ltb i w.count)) [
    | inl there ↦ rw there refl
    | inr nobody ↦ rw nobody refl
  ]
  call_at-shared w i c (waits d) = refl
  call_at-shared w i c (inside turn p) = refl
  call_at-shared w i c (leaves turn e) = refl
  call_at-shared w i c crashed = refl

  pub runs-Spares : (w : World) (i : ℕ) → Spares w.shared (move os nl (runs i) w).shared
  unfolding move
  runs-Spares w i = take_step-Spares w i (w.places i)

  pub begins-shared : (w : World) (i : ℕ) (c : Call) → (move os nl (begins i c) w).shared ≡ w.shared
  unfolding move
  begins-shared w i c = call_at-shared w i c (w.places i)
