-- ===== src/Interleaving/Steps.antt =====
-- After a step of `advance` a call does what is left of it.
use manet_testbed.Base.{
  ℕ, u32_max, Bool, true, false, Option, none, some, List, [], ◌∷◌, ◌≡◌, refl, sym, ◌∙◌,
  if◌then◌else◌, to_size, Bool-cases, inl, inr,
}
use manet_testbed.Netlink.{Mem, Netlink}
use manet_testbed.Api.{
  State, Reply, failed, message, CallbackFunction, in_control, in_data, out, for, M, Run, done,
  blocked, fault, out_of_fuel, pure, and_then, ◌>>=◌, Os, call, check, receive, get_msg,
  mutex_unlock,
}
use manet_testbed.Iface.{get_ip, parse_nl_if_msg, receive_all}
use manet_testbed.Route.{form_request}
use manet_testbed.Queue.Register.{start_thread}
use manet_testbed.Queue.Register.Outcomes.{Registration}
use manet_testbed.Interleaving.{
  in_route, in_query, in_registration, Point, asks_route, checks_request, awaits_answer,
  checks_answer, notes_answer, enters, sets_name, asks_address, checks_sent, awaits_dump,
  checks_dump, parses_dump, frees_queried, filters_first, filters_rest, keeps_control,
  starts_control, keeps_data, keeps_outgoing, keeps_forwarded, starts_data, starts_outgoing,
  starts_forwarded, frees_registered, frees_changed, Ending, reads_address, gives, Next, goes, ends,
  to_callback, to_data, is_unfinished, advance,
}
use manet_testbed.Interleaving.Still.{Still, parse_nl_if_msg-Still}
use manet_testbed.Api.Laws.{Leaves}
use manet_testbed.Interleaving.Finish.{
  released, note_answer, dump_awaited, dump_parsed, data_given, callback_given, finish, continue,
}

-- A step that is a run and a choice of what is next, and what is left after it.
next-step :
    {A : Type 0} {f : A → Next} {k : A → M Ending} (after : Next → M Ending) (r : Run A)
    → ((a : A) (t : State) → k a t ≡ after (f a) t)
    → and_then r k ≡ and_then (and_then r (λ a. pure (f a))) after
next-step after (done a t) h = h a t
next-step after (blocked t) h = refl
next-step after (fault t) h = refl
next-step after (out_of_fuel t) h = refl

module _ (os : Os) (nl : Netlink) where
  next-if :
      (b : Bool) (x y : Next) (s : State)
      → (if b then continue os nl x else continue os nl y) s ≡ continue os nl (if b then x else y) s
  next-if true x y s = refl
  next-if false x y s = refl

  next-callback :
      (g : Registration) (s : State) → callback_given os nl g s ≡ continue os nl (to_callback g) s
  unfolding finish
  next-callback (Registration.incoming none none) s = refl
  next-callback (Registration.incoming none (some d)) s = refl
  next-callback (Registration.incoming (some c) d) s = refl
  next-callback (Registration.outgoing none) s = refl
  next-callback (Registration.outgoing (some callback)) s = refl
  next-callback (Registration.forward none) s = refl
  next-callback (Registration.forward (some callback)) s = refl

  next-data :
      (d : Option CallbackFunction) (s : State)
      → data_given os nl d s ≡ continue os nl (to_data d) s
  unfolding finish
  next-data none s = refl
  next-data (some callback) s = refl

  -- The loop after one reply is received.
  dump_parsed-again :
      (frame len : ℕ) (buf : Mem) (type : ℕ) (rest : List Reply) (s : State)
      → s.inbox ≡ rest
      → and_then
          (and_then
            (parse_nl_if_msg os nl buf len type s)
            λ kind. if is_unfinished kind then receive_all os nl rest buf type else pure buf)
          (λ buf'. released (reads_address frame buf'))
        ≡ dump_parsed os nl frame len buf type s
  dump_parsed-again frame len buf type rest s e =
      parsed (parse_nl_if_msg os nl buf len type s) (parse_nl_if_msg-Still nl buf type os len s)
    where
      parsed :
          (r : Run ℕ)
          → Leaves (Still s) r
          → and_then
              (and_then r
                λ kind. if is_unfinished kind then receive_all os nl rest buf type else pure buf)
              (λ buf'. released (reads_address frame buf'))
            ≡ and_then r λ kind.
              if is_unfinished kind
              then dump_awaited os nl frame buf type
              else released (reads_address frame buf)
      parsed (done kind t) h = elim (Bool-cases (is_unfinished kind)) [
        | inr last ↦ rw last refl
        | inl more ↦ rw more λ i.
            and_then (receive_all os nl (sym (h.1 ∙ e) i) buf type t)
              (λ buf'. released (reads_address frame buf'))
      ]
      parsed (blocked t) h = refl
      parsed (fault t) h = refl
      parsed (out_of_fuel t) h = refl

  dump_awaited-received :
      (frame : ℕ) (buf : Mem) (type : ℕ) (replies : List Reply) (s : State)
      → dump_awaited os nl frame buf type (record s { inbox = replies })
        ≡ (advance os nl (in_query (awaits_dump frame buf type)) >>= continue os nl)
            (record s { inbox = replies })
  unfolding finish advance receive_all get_msg receive check
  dump_awaited-received frame buf type [] s = refl
  dump_awaited-received frame buf type (failed ∷ rest) s =
      dump_parsed-again frame _ buf type rest _ refl
  dump_awaited-received frame buf type (message bs ∷ rest) s =
      dump_parsed-again frame _ _ type rest _ refl

  control-next :
      (b : Bool) (d : Option CallbackFunction) (s : State)
      → (if b then pure (gives u32_max) else data_given os nl d) s
        ≡ continue os nl (if b then ends (gives u32_max) else to_data d) s
  control-next true d s = refl
  control-next false d s = next-data d s

  -- After its next step a call does what is left.
  pub finish-advance :
      (p : Point) (s : State) → finish os nl p s ≡ (advance os nl p >>= continue os nl) s
  unfolding finish advance form_request get_ip call check mutex_unlock
  finish-advance (in_route (asks_route stack dest hop action)) s = refl
  finish-advance (in_route (checks_request sent stack)) s = refl
  finish-advance (in_route (awaits_answer stack)) s =
      next-step (continue os nl) (get_msg stack s) (λ a t. refl)
  finish-advance (in_route (checks_answer len buf)) s = refl
  finish-advance (in_route (notes_answer len buf)) s =
      next-step {f = λ _. goes (in_route frees_changed)} (continue os nl)
        (note_answer os nl (to_size len) buf s) (λ a t. refl)
  finish-advance (in_route frees_changed) s = refl
  finish-advance (in_query (enters stack interface type)) s = refl
  finish-advance (in_query (sets_name frame stack interface type)) s = refl
  finish-advance (in_query (asks_address frame stack type)) s = refl
  finish-advance (in_query (checks_sent frame sent stack type)) s = refl
  finish-advance (in_query (awaits_dump frame buf type)) s =
      dump_awaited-received frame buf type s.inbox s
  finish-advance (in_query (checks_dump frame len buf type)) s = refl
  finish-advance (in_query (parses_dump frame len buf type)) s =
      next-step (continue os nl) (parse_nl_if_msg os nl buf (to_size len) type s) (λ kind t.
        next-if (is_unfinished kind) (goes (in_query (awaits_dump frame buf type)))
          (goes (in_query (frees_queried frame buf))) t)
  finish-advance (in_query (frees_queried frame buf)) s = refl
  finish-advance (in_registration (filters_first g)) s = refl
  finish-advance (in_registration (filters_rest g)) s = next-callback g _
  finish-advance (in_registration (keeps_control callback d)) s = refl
  finish-advance (in_registration (starts_control d)) s =
      next-step (continue os nl) (start_thread os in_control _ s) (λ b t. control-next b d t)
  finish-advance (in_registration (keeps_data callback)) s = refl
  finish-advance (in_registration starts_data) s =
      next-step (continue os nl) (start_thread os in_data _ s)
        (λ b t. next-if b (ends (gives u32_max)) (goes (in_registration frees_registered)) t)
  finish-advance (in_registration (keeps_outgoing callback)) s = refl
  finish-advance (in_registration starts_outgoing) s =
      next-step (continue os nl) (start_thread os out _ s)
        (λ b t. next-if b (ends (gives u32_max)) (goes (in_registration frees_registered)) t)
  finish-advance (in_registration (keeps_forwarded callback)) s = refl
  finish-advance (in_registration starts_forwarded) s =
      next-step (continue os nl) (start_thread os for _ s)
        (λ b t. next-if b (ends (gives u32_max)) (goes (in_registration frees_registered)) t)
  finish-advance (in_registration frees_registered) s = refl
