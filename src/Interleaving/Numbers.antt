-- ===== src/Interleaving/Numbers.antt =====
-- The calls of `GetInterfaceIP` are numbered in the order in which they enter: no live buffer has a
-- number that has not been counted up to, and only the world's threads make calls.
use manet_testbed.Base.{
  ℕ, zero, suc, u32_max, Bool, true, false, Option, none, some, ◌∷◌, ◌≡◌, refl, inl, inr,
  if◌then◌else◌, ◌==◌, ◌<◌, ◌≤◌, to_size, is_zero, Bool-cases, arith,
}
use manet_testbed.Netlink.{Mem, Netlink}
use manet_testbed.Api.{
  State, CallbackFunction, Plane, in_control, in_data, out, for, pthread_create, Run, done, blocked,
  fault, out_of_fuel, pure, and_then, Os, call, check, get_msg, mutex_unlock,
}
use manet_testbed.Api.Laws.{Leaves}
use manet_testbed.Iface.{get_ip, parse_nl_if_msg}
use manet_testbed.Route.{form_request, note_error}
use manet_testbed.Queue.Register.{start_thread}
use manet_testbed.Queue.Register.Outcomes.{Registration}
use manet_testbed.Interleaving.{
  in_route, in_query, in_registration, QueryPoint, Point, asks_route, checks_request, awaits_answer,
  checks_answer, notes_answer, enters, sets_name, asks_address, checks_sent, awaits_dump,
  checks_dump, parses_dump, frees_queried, filters_first, filters_rest, keeps_control,
  starts_control, keeps_data, keeps_outgoing, keeps_forwarded, starts_data, starts_outgoing,
  starts_forwarded, frees_registered, frees_changed, Ending, reads_error, reads_address, gives,
  Next, goes, ends, to_callback, to_data, is_unfinished, advance,
}
use manet_testbed.Interleaving.Schedule.{
  Place, outside, waits, inside, leaves, crashed, buffer, live,
}
use manet_testbed.Interleaving.Reads.{SameFrame, get_msg-SameFrame, parsed-SameFrame}

-- The number of the call of `GetInterfaceIP` that a thread is in, and 0 in others.
abbrev query_number : QueryPoint → ℕ
query_number (enters stack interface type) = 0
query_number (sets_name frame stack interface type) = frame
query_number (asks_address frame stack type) = frame
query_number (checks_sent frame sent stack type) = frame
query_number (awaits_dump frame buf type) = frame
query_number (checks_dump frame len buf type) = frame
query_number (parses_dump frame len buf type) = frame
query_number (frees_queried frame buf) = frame

abbrev pub point_number : Point → ℕ
point_number (in_query p) = query_number p
point_number _ = 0

abbrev ending_number : Ending → ℕ
ending_number (reads_address frame buf) = frame
ending_number _ = 0

abbrev pub next_number : Next → ℕ
next_number (goes p) = point_number p
next_number (ends e) = ending_number e

abbrev pub number : Place → ℕ
number (inside turn p) = point_number p
number (leaves turn e) = ending_number e
number _ = 0

-- A step counts up at most, and its thread's number has been counted up to.
abbrev pub Counts : State → Run Next → Type 0
Counts s (done n t) = (s.frame ≤ t.frame) × (next_number n ≤ t.frame)
Counts s (blocked t) = Unit {0}
Counts s (fault t) = s.frame ≤ t.frame
Counts s (out_of_fuel t) = s.frame ≤ t.frame

bind-Counts :
    {A : Type 0} (s : State) (f : A → Next) (r : Run A)
    → Leaves (SameFrame s) r
    → ((a : A) → next_number (f a) ≤ s.frame)
    → Counts s (and_then r (λ a. pure (f a)))
bind-Counts s f (done a t) same small = rw same (omega arith, small a)
bind-Counts s f (blocked t) same small = tt
bind-Counts s f (fault t) same small = rw same (omega arith)
bind-Counts s f (out_of_fuel t) same small = rw same (omega arith)

to_data-number : (d : Option CallbackFunction) → next_number (to_data d) ≡ 0
to_data-number none = refl
to_data-number (some callback) = refl

to_callback-number : (g : Registration) → next_number (to_callback g) ≡ 0
to_callback-number (Registration.incoming none d) = to_data-number d
to_callback-number (Registration.incoming (some callback) d) = refl
to_callback-number (Registration.outgoing none) = refl
to_callback-number (Registration.outgoing (some callback)) = refl
to_callback-number (Registration.forward none) = refl
to_callback-number (Registration.forward (some callback)) = refl

-- What comes behind a thread's creation.
started-number :
    (b : Bool) (n : Next) (m : ℕ)
    → next_number n ≡ 0
    → next_number (if b then ends (gives u32_max) else n) ≤ m
started-number true n m e = omega arith
started-number false n m e = rw e (omega arith)

module _ (os : Os) (nl : Netlink) where
  start_thread-SameFrame :
      (plane : Plane) (store : ℕ → State → State) (s : State)
      → ((n : ℕ) (t : State) → (store n t).frame ≡ t.frame)
      → Leaves (SameFrame s) (start_thread os plane store s)
  unfolding start_thread call
  start_thread-SameFrame plane store s keeps =
      elim (Bool-cases (is_zero (os.result (pthread_create plane ∷ s.log)))) [
        | inl created ↦ rw created (keeps _ _)
        | inr not_created ↦ rw not_created refl
      ]

  pub advance-Counts :
      (p : Point) (s : State) → point_number p ≤ s.frame → Counts s (advance os nl p s)
  unfolding advance form_request get_ip check call note_error mutex_unlock
  advance-Counts (in_route (asks_route stack dest hop action)) s le = omega arith
  advance-Counts (in_route (checks_request sent stack)) s le = omega arith
  advance-Counts (in_route (awaits_answer stack)) s le =
      bind-Counts s _ (get_msg stack s) (get_msg-SameFrame stack s) (λ a. omega arith)
  advance-Counts (in_route (checks_answer len buf)) s le = omega arith
  advance-Counts (in_route (notes_answer len buf)) s le = ground arith
  advance-Counts (in_route frees_changed) s le = omega arith
  advance-Counts (in_query (enters stack interface type)) s le = omega arith
  advance-Counts (in_query (sets_name frame stack interface type)) s le = omega arith
  advance-Counts (in_query (asks_address frame stack type)) s le = omega arith
  advance-Counts (in_query (checks_sent frame sent stack type)) s le = omega arith
  advance-Counts (in_query (awaits_dump frame buf type)) s le =
      bind-Counts s _ (get_msg buf s) (get_msg-SameFrame buf s) (λ a. le)
  advance-Counts (in_query (checks_dump frame len buf type)) s le = omega arith
  advance-Counts (in_query (parses_dump frame len buf type)) s le =
      bind-Counts s _ (parse_nl_if_msg os nl buf (to_size len) type s)
        (parsed-SameFrame os nl buf (to_size len) type s s refl)
        λ kind. elim (Bool-cases (is_unfinished kind)) [
          | inl more ↦ rw more le
          | inr finished ↦ rw finished le
        ]
  advance-Counts (in_query (frees_queried frame buf)) s le = omega arith
  advance-Counts (in_registration (filters_first g)) s le = omega arith
  advance-Counts (in_registration (filters_rest g)) s le =
      (omega arith, rw (to_callback-number g) (omega arith))
  advance-Counts (in_registration (keeps_control callback d)) s le = omega arith
  advance-Counts (in_registration (starts_control d)) s le =
      bind-Counts s _ (start_thread os in_control _ s)
        (start_thread-SameFrame in_control _ s (λ n t. refl))
        (λ b. started-number b (to_data d) s.frame (to_data-number d))
  advance-Counts (in_registration (keeps_data callback)) s le = omega arith
  advance-Counts (in_registration starts_data) s le =
      bind-Counts s _ (start_thread os in_data _ s)
        (start_thread-SameFrame in_data _ s (λ n t. refl)) (λ b. started-number b _ s.frame refl)
  advance-Counts (in_registration (keeps_outgoing callback)) s le = omega arith
  advance-Counts (in_registration starts_outgoing) s le =
      bind-Counts s _ (start_thread os out _ s) (start_thread-SameFrame out _ s (λ n t. refl))
        (λ b. started-number b _ s.frame refl)
  advance-Counts (in_registration (keeps_forwarded callback)) s le = omega arith
  advance-Counts (in_registration starts_forwarded) s le =
      bind-Counts s _ (start_thread os for _ s) (start_thread-SameFrame for _ s (λ n t. refl))
        (λ b. started-number b _ s.frame refl)
  advance-Counts (in_registration frees_registered) s le = omega arith

-- A buffer whose number is behind is not the one that is looked for.
buffer_at-none :
    (frame : ℕ) (buf : Mem) (wanted : ℕ)
    → frame < wanted
    → (if frame == wanted then some buf else none) ≡ none
buffer_at-none frame buf wanted less = ground arith

buffer-none : (p : Place) (wanted : ℕ) → number p < wanted → buffer p wanted ≡ none
buffer-none outside wanted less = refl
buffer-none (waits c) wanted less = refl
buffer-none crashed wanted less = refl
buffer-none (inside turn (in_route p)) wanted less = refl
buffer-none (inside turn (in_registration p)) wanted less = refl
buffer-none (inside turn (in_query (enters stack interface type))) wanted less = refl
buffer-none (inside turn (in_query (sets_name frame stack interface type))) wanted less = refl
buffer-none (inside turn (in_query (asks_address frame stack type))) wanted less = refl
buffer-none (inside turn (in_query (checks_sent frame sent stack type))) wanted less = refl
buffer-none (inside turn (in_query (awaits_dump frame buf type))) wanted less =
    buffer_at-none frame buf wanted less
buffer-none (inside turn (in_query (checks_dump frame len buf type))) wanted less =
    buffer_at-none frame buf wanted less
buffer-none (inside turn (in_query (parses_dump frame len buf type))) wanted less =
    buffer_at-none frame buf wanted less
buffer-none (inside turn (in_query (frees_queried frame buf))) wanted less =
    buffer_at-none frame buf wanted less
buffer-none (leaves turn reads_error) wanted less = refl
buffer-none (leaves turn (gives n)) wanted less = refl
buffer-none (leaves turn (reads_address frame buf)) wanted less =
    buffer_at-none frame buf wanted less

pub live-none :
    (n : ℕ) (places : ℕ → Place) (wanted : ℕ)
    → ((j : ℕ) → number (places j) < wanted)
    → live n places wanted ≡ none
unfolding live
live-none zero places wanted less = refl
live-none (suc n) places wanted less =
    rw (buffer-none (places n) wanted (less n)) (live-none n places wanted less)
