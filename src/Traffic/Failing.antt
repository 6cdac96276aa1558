-- ===== src/Traffic/Failing.antt =====
-- A step that ends a call with a failure leaves the mutex held.
use manet_testbed.Base.{◌≡◌, refl, ◌⊎◌, inl, inr, to_size, arith}
use manet_testbed.Netlink.{Netlink}
use manet_testbed.Api.{
  State, in_control, in_data, out, for, Run, done, blocked, fault, out_of_fuel, pure, and_then, Os,
  call, check, get_msg, mutex_unlock,
}
use manet_testbed.Api.Laws.{Leaves, Leaves-mono}
use manet_testbed.Iface.{get_ip, parse_nl_if_msg}
use manet_testbed.Route.{form_request, note_error}
use manet_testbed.Queue.Register.{start_thread}
use manet_testbed.Interleaving.{
  in_route, in_query, in_registration, Point, asks_route, checks_request, awaits_answer,
  checks_answer, notes_answer, enters, sets_name, asks_address, checks_sent, awaits_dump,
  checks_dump, parses_dump, frees_queried, filters_first, filters_rest, keeps_control,
  starts_control, keeps_data, keeps_outgoing, keeps_forwarded, starts_data, starts_outgoing,
  starts_forwarded, frees_registered, frees_changed, reads_error, reads_address, gives, Next, goes,
  ends, to_callback, advance,
}
use manet_testbed.Interleaving.Schedule.{Place, leaves}
use manet_testbed.Interleaving.Still.{
  Still, SameLock, parse_nl_if_msg-Still, get_msg-SameLock, start_thread-SameLock,
}

-- A step that ends a call with a result that is not 0 leaves the mutex as it was.
abbrev pub FailsHeld : State → Run Next → Type 0
FailsHeld s (done (ends (gives n)) t) = (n ≡ 0) ⊎ (t.lock ≡ s.lock)
FailsHeld s _ = Unit {0}

next-FailsHeld : (s : State) (n : Next) (t : State) → t.lock ≡ s.lock → FailsHeld s (done n t)
next-FailsHeld s (goes p) t same = tt
next-FailsHeld s (ends reads_error) t same = tt
next-FailsHeld s (ends (reads_address frame buf)) t same = tt
next-FailsHeld s (ends (gives n)) t same = inr same

bind-FailsHeld :
    {A : Type 0} (s : State) (f : A → Next) (r : Run A)
    → Leaves (SameLock s) r
    → FailsHeld s (and_then r (λ a. pure (f a)))
bind-FailsHeld s f (done a t) same = next-FailsHeld s (f a) t same
bind-FailsHeld s f (blocked t) same = tt
bind-FailsHeld s f (fault t) same = tt
bind-FailsHeld s f (out_of_fuel t) same = tt

module _ (os : Os) (nl : Netlink) where
  pub advance-FailsHeld : (p : Point) (s : State) → FailsHeld s (advance os nl p s)
  unfolding advance form_request get_ip check call note_error mutex_unlock
  advance-FailsHeld (in_route (asks_route stack dest hop action)) s = tt
  advance-FailsHeld (in_route (checks_request sent stack)) s = tt
  advance-FailsHeld (in_route (awaits_answer stack)) s =
      bind-FailsHeld s _ (get_msg stack s) (get_msg-SameLock os nl stack s)
  advance-FailsHeld (in_route (checks_answer len buf)) s = tt
  advance-FailsHeld (in_route (notes_answer len buf)) s = ground arith
  advance-FailsHeld (in_route frees_changed) s = tt
  advance-FailsHeld (in_query (enters stack interface type)) s = tt
  advance-FailsHeld (in_query (sets_name frame stack interface type)) s = tt
  advance-FailsHeld (in_query (asks_address frame stack type)) s = tt
  advance-FailsHeld (in_query (checks_sent frame sent stack type)) s = tt
  advance-FailsHeld (in_query (awaits_dump frame buf type)) s =
      bind-FailsHeld s _ (get_msg buf s) (get_msg-SameLock os nl buf s)
  advance-FailsHeld (in_query (checks_dump frame len buf type)) s = tt
  advance-FailsHeld (in_query (parses_dump frame len buf type)) s =
      bind-FailsHeld s _ (parse_nl_if_msg os nl buf (to_size len) type s) (
        Leaves-mono (Still s) (SameLock s) _ (parse_nl_if_msg-Still nl buf type os (to_size len) s)
          (λ t h. h.0))
  advance-FailsHeld (in_query (frees_queried frame buf)) s = tt
  advance-FailsHeld (in_registration (filters_first g)) s = tt
  advance-FailsHeld (in_registration (filters_rest g)) s = next-FailsHeld s (to_callback g) _ refl
  advance-FailsHeld (in_registration (keeps_control callback d)) s = tt
  advance-FailsHeld (in_registration (starts_control d)) s =
      bind-FailsHeld s _ (start_thread os in_control _ s)
        (start_thread-SameLock os nl in_control _ s (λ n t. refl))
  advance-FailsHeld (in_registration (keeps_data callback)) s = tt
  advance-FailsHeld (in_registration starts_data) s =
      bind-FailsHeld s _ (start_thread os in_data _ s)
        (start_thread-SameLock os nl in_data _ s (λ n t. refl))
  advance-FailsHeld (in_registration (keeps_outgoing callback)) s = tt
  advance-FailsHeld (in_registration starts_outgoing) s =
      bind-FailsHeld s _ (start_thread os out _ s)
        (start_thread-SameLock os nl out _ s (λ n t. refl))
  advance-FailsHeld (in_registration (keeps_forwarded callback)) s = tt
  advance-FailsHeld (in_registration starts_forwarded) s =
      bind-FailsHeld s _ (start_thread os for _ s)
        (start_thread-SameLock os nl for _ s (λ n t. refl))
  advance-FailsHeld (in_registration frees_registered) s = inl refl

-- A call that is about to return a result that is made already and is not 0.
abbrev pub IsFailing : Place → Type 0
IsFailing (leaves turn (gives n)) = ¬ (n ≡ 0)
IsFailing _ = ⊥
