-- ===== src/Interleaving/Ends.antt =====
-- A call that ends when it is made in one piece also ends step by step.
use manet_testbed.Base.{
  ℕ, zero, suc, ◌+◌, ◌*◌, ◌<◌, length, u32_max, Bool, true, false, Option, none, some, List, [],
  ◌∷◌, ◌≡◌, refl, sym, ap, ◌∙◌, if◌then◌else◌, to_size, Bool-cases, inl, inr, arith,
}
use manet_testbed.Netlink.{Mem, Netlink}
use manet_testbed.Api.{
  State, Reply, failed, message, CallbackFunction, in_control, in_data, out, for, M, Run, done,
  blocked, fault, out_of_fuel, pure, and_then, Os, call, check, receive, get_msg, mutex_unlock,
}
use manet_testbed.Api.Laws.{Leaves}
use manet_testbed.Iface.{get_ip, parse_nl_if_msg}
use manet_testbed.Route.{form_request}
use manet_testbed.Queue.Register.{start_thread}
use manet_testbed.Queue.Register.Outcomes.{Registration}
use manet_testbed.Interleaving.{
  in_route, in_query, in_registration, RoutePoint, QueryPoint, RegisterPoint, Point, asks_route,
  checks_request, awaits_answer, checks_answer, notes_answer, enters, sets_name, asks_address,
  checks_sent, awaits_dump, checks_dump, parses_dump, frees_queried, filters_first, filters_rest,
  keeps_control, starts_control, keeps_data, keeps_outgoing, keeps_forwarded, starts_data,
  starts_outgoing, starts_forwarded, frees_registered, frees_changed, Ending, gives, Next, goes,
  ends, to_callback, to_data, is_unfinished, advance,
}
use manet_testbed.Interleaving.Still.{Still, parse_nl_if_msg-Still}
use manet_testbed.Interleaving.Finish.{note_answer, finish, continue}
use manet_testbed.Interleaving.Steps.{finish-advance}

-- A run that ends in one piece has ended in its first part.
pub and_then-eq-done :
    {A B : Type 0} (r : Run A) (k : A → M B) {b : B} {t : State}
    → and_then r k ≡ done b t
    → (a : A) × (u : State) × (r ≡ done a u) × (k a u ≡ done b t)
and_then-eq-done (done a u) k h = (a, u, refl, h)
and_then-eq-done (blocked u) k h = cc
and_then-eq-done (fault u) k h = cc
and_then-eq-done (out_of_fuel u) k h = cc

-- How many steps are left, at most, while the kernel has replies.
abbrev route_rank : RoutePoint → ℕ
route_rank (asks_route stack dest hop action) = 5
route_rank (checks_request sent stack) = 4
route_rank (awaits_answer stack) = 3
route_rank (checks_answer len buf) = 2
route_rank (notes_answer len buf) = 1
route_rank frees_changed = 0

abbrev query_rank : QueryPoint → ℕ → ℕ
query_rank (enters stack interface type) replies = 6 + 3 * replies
query_rank (sets_name frame stack interface type) replies = 5 + 3 * replies
query_rank (asks_address frame stack type) replies = 4 + 3 * replies
query_rank (checks_sent frame sent stack type) replies = 3 + 3 * replies
query_rank (awaits_dump frame buf type) replies = 2 + 3 * replies
query_rank (checks_dump frame len buf type) replies = 4 + 3 * replies
query_rank (parses_dump frame len buf type) replies = 3 + 3 * replies
query_rank (frees_queried frame buf) replies = 1

abbrev registration_rank : RegisterPoint → ℕ
registration_rank (filters_first g) = 6
registration_rank (filters_rest g) = 5
registration_rank (keeps_control callback d) = 4
registration_rank (starts_control d) = 3
registration_rank (keeps_data callback) = 2
registration_rank (keeps_outgoing callback) = 2
registration_rank (keeps_forwarded callback) = 2
registration_rank starts_data = 1
registration_rank starts_outgoing = 1
registration_rank starts_forwarded = 1
registration_rank frees_registered = 0

abbrev rank : Point → State → ℕ
rank (in_route p) s = route_rank p
rank (in_query p) s = query_rank p (length s.inbox)
rank (in_registration p) s = registration_rank p

-- If a run goes on, fewer than `n` steps are left.
abbrev Below : ℕ → Run Next → Type 0
Below n (done (goes q) u) = rank q u < n
Below n _ = Unit {0}

-- A run that satisfies `P` where it stops, and a choice of what is next.
bind-Below :
    {A : Type 0} (n : ℕ) (f : A → Next) (P : State → Type 0) (r : Run A)
    → Leaves P r
    → ((a : A) (u : State) → P u → Below n (done (f a) u))
    → Below n (and_then r (λ a. pure (f a)))
bind-Below n f P (done a u) h next = next a u h
bind-Below n f P (blocked u) h next = tt
bind-Below n f P (fault u) h next = tt
bind-Below n f P (out_of_fuel u) h next = tt

anywhere : {A : Type 0} (r : Run A) → Leaves (λ u. Unit {0}) r
anywhere (done a u) = tt
anywhere (blocked u) = tt
anywhere (fault u) = tt
anywhere (out_of_fuel u) = tt

to_callback-Below : (g : Registration) (s : State) → Below 5 (done (to_callback g) s)
to_callback-Below (Registration.incoming none none) s = omega arith
to_callback-Below (Registration.incoming none (some d)) s = omega arith
to_callback-Below (Registration.incoming (some c) d) s = omega arith
to_callback-Below (Registration.outgoing none) s = tt
to_callback-Below (Registration.outgoing (some callback)) s = omega arith
to_callback-Below (Registration.forward none) s = tt
to_callback-Below (Registration.forward (some callback)) s = omega arith

to_data-Below :
    (b : Bool) (d : Option CallbackFunction) (s : State)
    → Below 3 (done (if b then ends (gives u32_max) else to_data d) s)
to_data-Below true d s = tt
to_data-Below false none s = omega arith
to_data-Below false (some callback) s = omega arith

freeing-Below :
    (b : Bool) (s : State)
    → Below 1 (done (if b then ends (gives u32_max) else goes (in_registration frees_registered)) s)
freeing-Below true s = tt
freeing-Below false s = omega arith

module _ (os : Os) (nl : Netlink) where
  -- The steps that take a thread from a point and a state out of what the mutex guards.
  pub data Ends : Point → State → Ending → State → Type 0 where
    last :
        {p : Point} {s t : State} {e : Ending} → advance os nl p s ≡ done (ends e) t → Ends p s e t
    later :
        {p q : Point} {s t u : State} {e : Ending}
        → advance os nl p s ≡ done (goes q) u
        → Ends q u e t
        → Ends p s e t

  -- What is next either ends or goes on.
  from_next :
      (p : Point) (s : State) (e : Ending) (t : State)
      → ((q : Point) (u : State)
          → advance os nl p s ≡ done (goes q) u
          → finish os nl q u ≡ done e t
          → Ends q u e t)
      → finish os nl p s ≡ done e t
      → Ends p s e t
  from_next p s e t onward h =
      let (n, u, stepped, left) =
        and_then-eq-done (advance os nl p s) (continue os nl)
          (sym (finish-advance os nl p s) ∙ h) in
      chosen n u stepped left
    where
      chosen :
          (n : Next) (u : State)
          → advance os nl p s ≡ done n u
          → continue os nl n u ≡ done e t
          → Ends p s e t
      chosen (goes q) u stepped left = later stepped (onward q u stepped left)
      chosen (ends f) u stepped left =
          let same : f ≡ e = cc in
          let there : u ≡ t = cc in last (stepped ∙ λ i. done (ends (same i)) (there i))

  awaits_dump-Below :
      (frame : ℕ) (buf : Mem) (type : ℕ) (replies : List Reply) (s : State)
      → Below
          (2 + 3 * length replies)
          (advance os nl (in_query (awaits_dump frame buf type)) (record s { inbox = replies }))
  unfolding advance get_msg receive
  awaits_dump-Below frame buf type [] s = tt
  awaits_dump-Below frame buf type (failed ∷ rest) s = omega arith
  awaits_dump-Below frame buf type (message bs ∷ rest) s = omega arith

  -- Each step leaves fewer.
  advance-Below : (p : Point) (s : State) → Below (rank p s) (advance os nl p s)
  unfolding advance form_request get_ip call check mutex_unlock
  advance-Below (in_route (asks_route stack dest hop action)) s = omega arith
  advance-Below (in_route (checks_request sent stack)) s = omega arith
  advance-Below (in_route (awaits_answer stack)) s =
      bind-Below 3 _ _ (get_msg stack s) (anywhere (get_msg stack s)) λ (len, buf) u _. omega arith
  advance-Below (in_route (checks_answer len buf)) s = omega arith
  advance-Below (in_route (notes_answer len buf)) s =
      bind-Below 1 (λ _. goes (in_route frees_changed)) _ (note_answer os nl (to_size len) buf s)
        (anywhere (note_answer os nl (to_size len) buf s)) λ _ u _. omega arith
  advance-Below (in_route frees_changed) s = tt
  advance-Below (in_query (enters stack interface type)) s = omega arith
  advance-Below (in_query (sets_name frame stack interface type)) s = omega arith
  advance-Below (in_query (asks_address frame stack type)) s = omega arith
  advance-Below (in_query (checks_sent frame sent stack type)) s = omega arith
  advance-Below (in_query (awaits_dump frame buf type)) s =
      awaits_dump-Below frame buf type s.inbox s
  advance-Below (in_query (checks_dump frame len buf type)) s = omega arith
  advance-Below (in_query (parses_dump frame len buf type)) s =
      bind-Below (3 + 3 * length s.inbox) _ (Still s)
        (parse_nl_if_msg os nl buf (to_size len) type s)
        (parse_nl_if_msg-Still nl buf type os (to_size len) s)
        λ kind u still. elim (Bool-cases (is_unfinished kind)) [
          | inl more ↦ rw more (omega (arith, ap length still.1))
          | inr finished ↦ rw finished (omega arith)
        ]
  advance-Below (in_query (frees_queried frame buf)) s = tt
  advance-Below (in_registration (filters_first g)) s = omega arith
  advance-Below (in_registration (filters_rest g)) s = to_callback-Below g _
  advance-Below (in_registration (keeps_control callback d)) s = omega arith
  advance-Below (in_registration (starts_control d)) s =
      bind-Below 3 _ _ (start_thread os in_control _ s) (anywhere _) λ b u _. to_data-Below b d u
  advance-Below (in_registration (keeps_data callback)) s = omega arith
  advance-Below (in_registration starts_data) s =
      bind-Below 1 _ _ (start_thread os in_data _ s) (anywhere _) λ b u _. freeing-Below b u
  advance-Below (in_registration (keeps_outgoing callback)) s = omega arith
  advance-Below (in_registration starts_outgoing) s =
      bind-Below 1 _ _ (start_thread os out _ s) (anywhere _) λ b u _. freeing-Below b u
  advance-Below (in_registration (keeps_forwarded callback)) s = omega arith
  advance-Below (in_registration starts_forwarded) s =
      bind-Below 1 _ _ (start_thread os for _ s) (anywhere _) λ b u _. freeing-Below b u
  advance-Below (in_registration frees_registered) s = tt

  rank-Ends :
      (n : ℕ) (p : Point) (s : State) (e : Ending) (t : State)
      → rank p s < n
      → finish os nl p s ≡ done e t
      → Ends p s e t
  rank-Ends zero p s e t few h = absurd (omega arith)
  rank-Ends (suc n) p s e t few h =
      from_next p s e t
        (λ q u stepped left.
          rank-Ends n q u e t (before q u (rw stepped at (advance-Below p s))) left)
        h
    where
      before : (q : Point) (u : State) → rank q u < rank p s → rank q u < n
      before q u less = omega arith

  -- A thread that is inside a call that ends from there in one piece has steps that take it out, to
  -- the same end.
  pub finish-Ends :
      (p : Point) (s : State) (e : Ending) (t : State) → finish os nl p s ≡ done e t → Ends p s e t
  finish-Ends p s e t h = rank-Ends (suc (rank p s)) p s e t (omega arith) h
