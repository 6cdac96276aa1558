-- ===== src/Interleaving/Noted.antt =====
-- The steps of a thread that holds the mutex leave a noted error noted.
use manet_testbed.Base.{
  ℕ, false, List, [], ◌∷◌, ◌≡◌, refl, to_size, is_zero, inl, inr, Bool-cases, arith,
}
use manet_testbed.Netlink.{Mem, Netlink}
use manet_testbed.Api.{
  State, Reply, failed, message, Plane, in_control, in_data, out, for, pthread_create, Os, Run,
  done, blocked, fault, out_of_fuel, pure, and_then, call, check, receive, get_msg, mutex_unlock,
}
use manet_testbed.Api.Laws.{Leaves, Leaves-mono}
use manet_testbed.Iface.{get_ip, parse_nl_if_msg}
use manet_testbed.Route.{form_request, note_error}
use manet_testbed.Queue.Register.{start_thread}
use manet_testbed.Interleaving.{
  in_route, in_query, in_registration, Point, asks_route, checks_request, awaits_answer,
  checks_answer, notes_answer, enters, sets_name, asks_address, checks_sent, awaits_dump,
  checks_dump, parses_dump, frees_queried, filters_first, filters_rest, keeps_control,
  starts_control, keeps_data, keeps_outgoing, keeps_forwarded, starts_data, starts_outgoing,
  starts_forwarded, frees_registered, frees_changed, Next, advance,
}
use manet_testbed.Interleaving.Still.{Still, parse_nl_if_msg-Still}

-- A noted error stays noted.
abbrev pub Noted : State → State → Type 0
Noted s t = is_zero s.f_err ≡ false → is_zero t.f_err ≡ false

pub bind-Leaves :
    {A : Type 0} (P : State → Type 0) (f : A → Next) (r : Run A)
    → Leaves P r
    → Leaves P (and_then r (λ a. pure (f a)))
bind-Leaves P f (done a t) h = h
bind-Leaves P f (blocked t) h = h
bind-Leaves P f (fault t) h = h
bind-Leaves P f (out_of_fuel t) h = h

module _ (os : Os) (nl : Netlink) where
  start_thread-Noted :
      (plane : Plane) (store : ℕ → State → State) (s : State)
      → ((n : ℕ) (t : State) → (store n t).f_err ≡ t.f_err)
      → Leaves (Noted s) (start_thread os plane store s)
  unfolding start_thread call
  start_thread-Noted plane store s keeps =
      elim (Bool-cases (is_zero (os.result (pthread_create plane ∷ s.log)))) [
        | inl created ↦ rw created λ h. rw (keeps _ _) h
        | inr not_created ↦ rw not_created λ h. h
      ]

  get_msg-Noted : (buf : Mem) (s : State) → Leaves (Noted s) (get_msg buf s)
  unfolding get_msg receive
  get_msg-Noted buf s = received s.inbox
    where
      received : (replies : List Reply) → Leaves (Noted s) (receive buf s replies)
      received [] = λ h. h
      received (failed ∷ rest) = λ h. h
      received (message bs ∷ rest) = λ h. h

  pub advance-Noted : (p : Point) (s : State) → Leaves (Noted s) (advance os nl p s)
  unfolding advance form_request get_ip check call note_error mutex_unlock
  advance-Noted (in_route (asks_route stack dest hop action)) s = λ h. h
  advance-Noted (in_route (checks_request sent stack)) s = λ h. ground arith
  advance-Noted (in_route (awaits_answer stack)) s =
      bind-Leaves (Noted s) _ (get_msg stack s) (get_msg-Noted stack s)
  advance-Noted (in_route (checks_answer len buf)) s = λ h. ground arith
  advance-Noted (in_route (notes_answer len buf)) s = ground arith
  advance-Noted (in_route frees_changed) s = λ h. h
  advance-Noted (in_query (enters stack interface type)) s = λ h. h
  advance-Noted (in_query (sets_name frame stack interface type)) s = λ h. h
  advance-Noted (in_query (asks_address frame stack type)) s = λ h. h
  advance-Noted (in_query (checks_sent frame sent stack type)) s = λ h. ground arith
  advance-Noted (in_query (awaits_dump frame buf type)) s =
      bind-Leaves (Noted s) _ (get_msg buf s) (get_msg-Noted buf s)
  advance-Noted (in_query (checks_dump frame len buf type)) s = λ h. ground arith
  advance-Noted (in_query (parses_dump frame len buf type)) s =
      bind-Leaves (Noted s) _ (parse_nl_if_msg os nl buf (to_size len) type s) (
        Leaves-mono (Still s) (Noted s) (parse_nl_if_msg os nl buf (to_size len) type s)
          (parse_nl_if_msg-Still nl buf type os (to_size len) s) λ t h. h.3)
  advance-Noted (in_query (frees_queried frame buf)) s = λ h. h
  advance-Noted (in_registration (filters_first g)) s = λ h. h
  advance-Noted (in_registration (filters_rest g)) s = λ h. h
  advance-Noted (in_registration (keeps_control callback d)) s = λ h. h
  advance-Noted (in_registration (starts_control d)) s =
      bind-Leaves (Noted s) _ (start_thread os in_control _ s)
        (start_thread-Noted in_control _ s λ n t. refl)
  advance-Noted (in_registration (keeps_data callback)) s = λ h. h
  advance-Noted (in_registration starts_data) s =
      bind-Leaves (Noted s) _ (start_thread os in_data _ s)
        (start_thread-Noted in_data _ s λ n t. refl)
  advance-Noted (in_registration (keeps_outgoing callback)) s = λ h. h
  advance-Noted (in_registration starts_outgoing) s =
      bind-Leaves (Noted s) _ (start_thread os out _ s) (start_thread-Noted out _ s λ n t. refl)
  advance-Noted (in_registration (keeps_forwarded callback)) s = λ h. h
  advance-Noted (in_registration starts_forwarded) s =
      bind-Leaves (Noted s) _ (start_thread os for _ s) (start_thread-Noted for _ s λ n t. refl)
  advance-Noted (in_registration frees_registered) s = λ h. h
