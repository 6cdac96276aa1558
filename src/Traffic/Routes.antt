-- ===== src/Traffic/Routes.antt =====
-- The kernel's routing table in every course of the program, sends and packets among it.
pub mod Requests
use manet_testbed.Base.{
  ℕ, ℤ, suc, subst, length, ◌==◌, u32_max, Bool, true, false, Option, none, some, List, [], ◌∷◌,
  ◌++◌, ◌≡◌, refl, sym, ap, ◌∙◌, inl, inr, if◌then◌else◌, to_size, is_zero, Bool-cases, arith,
}
use mathlib.Core.List.{append_assoc, append-nil}
use manet_testbed.Netlink.{Mem, Netlink, af_inet, nlmsg_error}
use manet_testbed.Api.{
  route, Action, sendmsg, State, Reply, failed, message, CallbackFunction, Plane, in_control,
  in_data, out, for, pthread_create, Run, done, blocked, fault, out_of_fuel, pure, and_then, Os,
  call, check, receive, get_msg, mutex_unlock,
}
use manet_testbed.Api.Laws.{Leaves, Leaves-mono}
use manet_testbed.Iface.{get_ip, parse_nl_if_msg}
use manet_testbed.Route.{form_route, form_request, parse_nl_route_msg, note_error}
use manet_testbed.Route.Kernel.{
  Table, Kernel, IsDocumented, Operation, add, delete, action_of, dest_of, hop_of, request,
  effect_if, effects, effects-append, kernel_table, performed, outcomes, request_lem,
}
use manet_testbed.Queue.Register.{start_thread}
use manet_testbed.Queue.Register.Outcomes.{Registration}
use manet_testbed.Queue.Handlers.{Netfilter}
use manet_testbed.Interleaving.{
  Call, adding, deleting, getting, registering, in_route, in_query, in_registration, Point,
  asks_route, checks_request, awaits_answer, checks_answer, notes_answer, enters, sets_name,
  asks_address, checks_sent, awaits_dump, checks_dump, parses_dump, frees_queried, filters_first,
  filters_rest, keeps_control, starts_control, keeps_data, keeps_outgoing, keeps_forwarded,
  starts_data, starts_outgoing, starts_forwarded, frees_registered, frees_changed, Next, goes, ends,
  gives, to_callback, to_data, is_unfinished, first, advance,
}
use manet_testbed.Interleaving.Still.{Still, parse_nl_if_msg-Still}
use manet_testbed.Interleaving.Serial.{NoneInside}
use manet_testbed.Interleaving.Whole.{locked}
use manet_testbed.Traffic.{Step, idle, course}
use manet_testbed.Traffic.Within.{Touched, reads, writes_text, sends, gives_verdict}
use manet_testbed.Traffic.Monitor.{Onward, IsMonitor, course-Monitored}
use manet_testbed.Traffic.Routes.Requests.{
  operations, operations-append, Through, Due, sent-Through,
}

-- A request that a thread is about to send: its destination, next hop and action.
abbrev pending : Point → Option (ℕ × ℕ × ℕ)
pending (in_route (asks_route stack dest hop action)) = some (dest, hop, action)
pending _ = none

abbrev IsPlain : Next → Type 0
IsPlain (goes q) = pending q ≡ none
IsPlain (ends e) = Unit {0}

to_data-IsPlain : (d : Option CallbackFunction) → IsPlain (to_data d)
to_data-IsPlain none = refl
to_data-IsPlain (some callback) = refl

to_callback-IsPlain : (g : Registration) → IsPlain (to_callback g)
to_callback-IsPlain (Registration.incoming none d) = to_data-IsPlain d
to_callback-IsPlain (Registration.incoming (some callback) d) = refl
to_callback-IsPlain (Registration.outgoing none) = tt
to_callback-IsPlain (Registration.outgoing (some callback)) = refl
to_callback-IsPlain (Registration.forward none) = tt
to_callback-IsPlain (Registration.forward (some callback)) = refl

started-IsPlain :
    (b : Bool) (n : Next) → IsPlain n → IsPlain (if b then ends (gives u32_max) else n)
started-IsPlain true n h = tt
started-IsPlain false n h = h

module _ (kernel : Kernel) (os : Os) (nl : Netlink) (before : Table) where
  module _ (is : IsDocumented kernel) (start : List Action) (ops : List Operation) where
    abbrev Reaches : Point → State → Type 0
    Reaches q t = Due kernel os nl before start ops (pending q) t.log

    abbrev Has : State → Type 0
    Has t = Through kernel os nl before start ops t.log

    plain-Onward : (n : Next) (t : State) → Has t → IsPlain n → Onward Reaches Has (done n t)
    plain-Onward (goes q) t h plain = rw plain h
    plain-Onward (ends e) t h plain = h

    bind-Onward :
        {A : Type 0} (f : A → Next) (r : Run A)
        → Leaves Has r
        → ((a : A) → IsPlain (f a))
        → Onward Reaches Has (and_then r (λ a. pure (f a)))
    bind-Onward f (done a t) h plain = plain-Onward (f a) t h (plain a)
    bind-Onward f (blocked t) h plain = tt
    bind-Onward f (fault t) h plain = h
    bind-Onward f (out_of_fuel t) h plain = h

    get_msg-Has : (buf : Mem) (s : State) → Has s → Leaves Has (get_msg buf s)
    unfolding get_msg receive
    get_msg-Has buf s h = received s.inbox
      where
        received : (replies : List Reply) → Leaves Has (receive buf s replies)
        received [] = h
        received (failed ∷ rest) = h
        received (message bs ∷ rest) = h

    start_thread-Has :
        (plane : Plane) (store : ℕ → State → State) (s : State)
        → ((n : ℕ) (t : State) → (store n t).log ≡ t.log)
        → Has s
        → Leaves Has (start_thread os plane store s)
    unfolding start_thread call kernel_table outcomes
    start_thread-Has plane store s keeps h =
        elim (Bool-cases (is_zero (os.result (pthread_create plane ∷ s.log)))) [
          | inl created ↦
              rw created (subst (Through kernel os nl before start ops) (sym (keeps _ _)) h)
          | inr not_created ↦ rw not_created h
        ]

    -- A step takes the table on exactly where it sends the request that was pending.
    advance-Onward : (p : Point) (s : State) → Reaches p s → Onward Reaches Has (advance os nl p s)
    unfolding advance form_request get_ip check call note_error mutex_unlock kernel_table outcomes
    advance-Onward (in_route (asks_route stack dest hop action)) s h =
        let (earlier, o, last, at_dest, at_hop, at_action, sent) = h in
        subst (λ l. Through kernel os nl before start ops l)
          (λ k.
            sendmsg s.fd (route (form_route nl af_inet (at_dest k) (at_hop k) (at_action k)))
            ∷ s.log)
          (sent-Through kernel os nl before is start earlier ops o s.fd s.log last sent)
    advance-Onward (in_route (checks_request sent stack)) s h = h
    advance-Onward (in_route (awaits_answer stack)) s h =
        bind-Onward _ (get_msg stack s) (get_msg-Has stack s h) (λ a. refl)
    advance-Onward (in_route (checks_answer len buf)) s h = h
    advance-Onward (in_route (notes_answer len buf)) s h =
        elim (Bool-cases (parse_nl_route_msg nl buf (to_size len) == nlmsg_error)) [
          | inl error ↦ rw error h
          | inr fine ↦ rw fine h
        ]
    advance-Onward (in_route frees_changed) s h = h
    advance-Onward (in_query (enters stack interface type)) s h = h
    advance-Onward (in_query (sets_name frame stack interface type)) s h = h
    advance-Onward (in_query (asks_address frame stack type)) s h = h
    advance-Onward (in_query (checks_sent frame sent stack type)) s h = h
    advance-Onward (in_query (awaits_dump frame buf type)) s h =
        bind-Onward _ (get_msg buf s) (get_msg-Has buf s h) (λ a. refl)
    advance-Onward (in_query (checks_dump frame len buf type)) s h = h
    advance-Onward (in_query (parses_dump frame len buf type)) s h =
        bind-Onward _ (parse_nl_if_msg os nl buf (to_size len) type s)
          (Leaves-mono (Still s) Has _ (parse_nl_if_msg-Still nl buf type os (to_size len) s)
            (λ t still. subst (Through kernel os nl before start ops) (sym still.2) h))
          λ kind. elim (Bool-cases (is_unfinished kind)) [
            | inl more ↦ rw more refl
            | inr finished ↦ rw finished refl
          ]
    advance-Onward (in_query (frees_queried frame buf)) s h = h
    advance-Onward (in_registration (filters_first g)) s h = h
    advance-Onward (in_registration (filters_rest g)) s h =
        plain-Onward (to_callback g) _ h (to_callback-IsPlain g)
    advance-Onward (in_registration (keeps_control callback d)) s h = h
    advance-Onward (in_registration (starts_control d)) s h =
        bind-Onward _ (start_thread os in_control _ s)
          (start_thread-Has in_control _ s (λ n t. refl) h)
          (λ b. started-IsPlain b (to_data d) (to_data-IsPlain d))
    advance-Onward (in_registration (keeps_data callback)) s h = h
    advance-Onward (in_registration starts_data) s h =
        bind-Onward _ (start_thread os in_data _ s) (start_thread-Has in_data _ s (λ n t. refl) h)
          (λ b. started-IsPlain b _ refl)
    advance-Onward (in_registration (keeps_outgoing callback)) s h = h
    advance-Onward (in_registration starts_outgoing) s h =
        bind-Onward _ (start_thread os out _ s) (start_thread-Has out _ s (λ n t. refl) h)
          (λ b. started-IsPlain b _ refl)
    advance-Onward (in_registration (keeps_forwarded callback)) s h = h
    advance-Onward (in_registration starts_forwarded) s h =
        bind-Onward _ (start_thread os for _ s) (start_thread-Has for _ s (λ n t. refl) h)
          (λ b. started-IsPlain b _ refl)
    advance-Onward (in_registration frees_registered) s h = h

  traffic-Due :
      (start : List Action) (ops : List Operation) (p : Option (ℕ × ℕ × ℕ)) {s t : State}
      → Touched s t
      → Due kernel os nl before start ops p s.log
      → Due kernel os nl before start ops p t.log
  unfolding kernel_table outcomes
  traffic-Due start ops none reads h = h
  traffic-Due start ops none (writes_text text) h = h
  traffic-Due start ops none (sends sock d) h = h
  traffic-Due start ops none (gives_verdict plane id verdict) h = h
  traffic-Due start ops (some request') reads h = h
  traffic-Due start ops (some request') (writes_text text) h = h
  traffic-Due start ops (some request') (sends sock d) h = h
  traffic-Due start ops (some request') (gives_verdict plane id verdict) h = h

  entry-Reaches :
      (is : IsDocumented kernel) (start : List Action) (s : State) (cs : List Call) (c : Call)
      → Through kernel os nl before start (operations cs) s.log
      → Reaches is start (operations (cs ++ (c ∷ []))) (first c) (locked s)
  unfolding first
  entry-Reaches is start s cs (adding stack dest hop) h =
      (operations cs, add dest hop, operations-append cs _, refl, refl, refl, h)
  entry-Reaches is start s cs (deleting stack dest hop) h =
      (operations cs, delete dest hop, operations-append cs _, refl, refl, refl, h)
  entry-Reaches is start s cs (getting stack interface type) h =
      rw (operations-append cs (getting stack interface type), append-nil (operations cs)) h
  entry-Reaches is start s cs (registering g) h =
      rw (operations-append cs (registering g), append-nil (operations cs)) h

  table-IsMonitor :
      (is : IsDocumented kernel) (start : List Action)
      → IsMonitor os nl
          (λ s cs. Through kernel os nl before start (operations cs) s.log)
          (λ p s cs. Reaches is start (operations cs) p s)
  table-IsMonitor is start = record {
    by_entry = entry-Reaches is start;
    by_advance = λ p s cs h. advance-Onward is start (operations cs) p s h;
    touch_free = λ s t cs touched h. traffic-Due start (operations cs) none touched h;
    touch_within = λ p s t cs touched h. traffic-Due start (operations cs) (pending p) touched h;
  }

  -- Threads that are in no call and have no packet at first make the calls that take the mutex, send,
  -- and handle packets, whose callbacks call and send in turn, in any order of their steps. While no
  -- thread is inside what the mutex guards, a request has been sent for each addition and deletion that
  -- has taken the mutex, in the order in which they took it; and the kernel's table is the one at first
  -- with those of them performed, in that order as changes of a map, whose requests the kernel, as
  -- documented, has performed: it performs none that `sendmsg` has failed to send, and may refuse any.
  pub course-table :
      (is : IsDocumented kernel) (nf : Netfilter) (s : State) (count : ℕ) (ms : List Step)
      → NoneInside (course os nl nf ms (idle count s)).world.places
      → let w = (course os nl nf ms (idle count s)).world in
        (bs : List Bool) × (outcomes kernel os nl before w.shared.log
          ≡ outcomes kernel os nl before s.log ++ bs)
        × (length bs ≡ length (operations w.entered))
        × (kernel_table kernel os nl before w.shared.log
            ≡ effects bs (operations w.entered) (kernel_table kernel os nl before s.log))
  unfolding effects
  course-table is nf s count ms nobody =
      elim (course-Monitored os nl _ _ (table-IsMonitor is s.log) nf s count ms
        ([], sym (append-nil (outcomes kernel os nl before s.log)), refl, refl)) [
          | inl (_, h) ↦ h
          | inr o ↦ absurd (nobody o.thread (rw o.here tt))
        ]
