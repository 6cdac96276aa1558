-- ===== src/Traffic/Guarded.antt =====
-- A registration sets the callback of a plane before it has the plane's thread created, whatever
-- other threads do meanwhile.
use manet_testbed.Base.{
  ℕ, false, true, Option, none, some, ◌∷◌, ◌≡◌, ◌≢◌, refl, sym, ◌∙◌, ◌==◌, to_size, is_zero,
  Bool-cases, inl, inr, List,
}
use manet_testbed.Netlink.{Netlink, nlmsg_error}
use manet_testbed.Api.{
  State, CallbackFunction, Plane, in_control, in_data, out, for, pthread_create, Run, done, blocked,
  fault, out_of_fuel, pure, and_then, Os, call, check, get_msg, mutex_unlock,
}
use manet_testbed.Api.Laws.{Leaves}
use manet_testbed.Iface.{get_ip, parse_nl_if_msg}
use manet_testbed.Route.{form_request, parse_nl_route_msg, note_error}
use manet_testbed.Queue.Handlers.{Netfilter, Arguments}
use manet_testbed.Queue.Handlers.Verdicts.{registered}
use manet_testbed.Queue.Register.{start_thread}
use manet_testbed.Queue.Register.Outcomes.{Registration, incoming, outgoing, forward}
use manet_testbed.System.Calm.{spawned, Calm, Calm-self, get_msg-Calm}
use manet_testbed.System.Calm.Interface.{parse_nl_if_msg_from-Calm}
use manet_testbed.System.Kept.{HasCallback, Guarded, Calm-Kept, callback}
use manet_testbed.Interleaving.{
  in_route, in_query, in_registration, Call, adding, deleting, getting, registering, Point,
  asks_route, checks_request, awaits_answer, checks_answer, notes_answer, enters, sets_name,
  asks_address, checks_sent, awaits_dump, checks_dump, parses_dump, frees_queried, filters_first,
  filters_rest, keeps_control, starts_control, keeps_data, keeps_outgoing, keeps_forwarded,
  starts_data, starts_outgoing, starts_forwarded, frees_registered, frees_changed, Next, to_data,
  to_callback, is_unfinished, first, advance,
}
use manet_testbed.Interleaving.Whole.{locked}
use manet_testbed.Traffic.{asks_user, in_callback, step_task, Step, idle, course}
use manet_testbed.Traffic.Within.{Touched, reads, writes_text, sends, gives_verdict}
use manet_testbed.Traffic.Monitor.{Onward, IsMonitor, course-Monitored}

-- The plane whose thread is created next.
abbrev starting : Point → Option Plane
starting (in_registration (starts_control d)) = some in_control
starting (in_registration starts_data) = some in_data
starting (in_registration starts_outgoing) = some out
starting (in_registration starts_forwarded) = some for
starting _ = none

abbrev IsReady : Option Plane → State → Type 0
IsReady none s = Unit {0}
IsReady (some plane) s = registered plane s ≢ none

abbrev Ready : Point → State → Type 0
Ready p s = Guarded s × IsReady (starting p) s

-- What a step leaves.
abbrev Leads : Run Next → Type 0
Leads = Onward Ready Guarded

Calm-Guarded : {s t : State} → Calm s t → Guarded s → Guarded t
Calm-Guarded c = (Calm-Kept c).0

Calm-IsReady : {s t : State} (p : Option Plane) → Calm s t → IsReady p s → IsReady p t
Calm-IsReady none c h = tt
Calm-IsReady (some in_control) c h = λ missing. h (sym c.control ∙ missing)
Calm-IsReady (some in_data) c h = λ missing. h (sym c.arriving ∙ missing)
Calm-IsReady (some out) c h = λ missing. h (sym c.leaving ∙ missing)
Calm-IsReady (some for) c h = λ missing. h (sym c.passing ∙ missing)

Touched-Calm : {s t : State} → Touched s t → Calm s t
Touched-Calm {s} reads = Calm-self s
Touched-Calm (writes_text text) = record {
  control = refl;
  arriving = refl;
  leaving = refl;
  passing = refl;
  threads = λ plane. refl;
  noted = λ h. h;
}
Touched-Calm (sends sock d) = record {
  control = refl;
  arriving = refl;
  leaving = refl;
  passing = refl;
  threads = λ plane. refl;
  noted = λ h. h;
}
Touched-Calm (gives_verdict plane id verdict) = record {
  control = refl;
  arriving = refl;
  leaving = refl;
  passing = refl;
  threads = λ plane. refl;
  noted = λ h. h;
}

-- A call that is calm, and what the step makes of its result.
call-Leads :
    {A : Type 0} (s : State) (f : A → Next) (r : Run A)
    → ((a : A) (t : State) → Guarded t → Leads (done (f a) t))
    → Guarded s
    → Leaves (Calm s) r
    → Leads (and_then r (λ a. pure (f a)))
call-Leads s f (done a t) next g c = next a t (Calm-Guarded c g)
call-Leads s f (blocked t) next g c = tt
call-Leads s f (fault t) next g c = Calm-Guarded c g
call-Leads s f (out_of_fuel t) next g c = Calm-Guarded c g

to_data-Leads : (d : Option CallbackFunction) (t : State) → Guarded t → Leads (done (to_data d) t)
to_data-Leads none t g = (g, tt)
to_data-Leads (some f) t g = (g, tt)

to_callback-Leads : (r : Registration) (t : State) → Guarded t → Leads (done (to_callback r) t)
to_callback-Leads (incoming none d) t g = to_data-Leads d t g
to_callback-Leads (incoming (some f) d) t g = (g, tt)
to_callback-Leads (outgoing none) t g = g
to_callback-Leads (outgoing (some f)) t g = (g, tt)
to_callback-Leads (forward none) t g = g
to_callback-Leads (forward (some f)) t g = (g, tt)

module _ (os : Os) (nl : Netlink) where
  advance-Leads : (p : Point) (s : State) → Ready p s → Leads (advance os nl p s)
  unfolding advance form_request get_ip check call note_error mutex_unlock start_thread
      parse_nl_if_msg
  advance-Leads (in_route (asks_route stack dest hop action)) s (g, _) = (g, tt)
  advance-Leads (in_route (checks_request sent stack)) s (g, _) = (g, tt)
  advance-Leads (in_route (awaits_answer stack)) s (g, _) =
      call-Leads s _ (get_msg stack s) (λ a t h. (h, tt)) g (get_msg-Calm s s stack (Calm-self s))
  advance-Leads (in_route (checks_answer len buf)) s (g, _) = (g, tt)
  advance-Leads (in_route (notes_answer len buf)) s (g, _) =
      elim (Bool-cases (parse_nl_route_msg nl buf (to_size len) == nlmsg_error)) [
        | inl error ↦ rw error (g, tt)
        | inr fine ↦ rw fine (g, tt)
      ]
  advance-Leads (in_route frees_changed) s (g, _) = g
  advance-Leads (in_query (enters stack interface type)) s (g, _) = (g, tt)
  advance-Leads (in_query (sets_name frame stack interface type)) s (g, _) = (g, tt)
  advance-Leads (in_query (asks_address frame stack type)) s (g, _) = (g, tt)
  advance-Leads (in_query (checks_sent frame sent stack type)) s (g, _) = (g, tt)
  advance-Leads (in_query (awaits_dump frame buf type)) s (g, _) =
      call-Leads s _ (get_msg buf s) (λ a t h. (h, tt)) g (get_msg-Calm s s buf (Calm-self s))
  advance-Leads (in_query (checks_dump frame len buf type)) s (g, _) = (g, tt)
  advance-Leads (in_query (parses_dump frame len buf type)) s (g, _) =
      call-Leads s _ (parse_nl_if_msg os nl buf (to_size len) type s)
        (λ kind t h. elim (Bool-cases (is_unfinished kind)) [
          | inl more ↦ rw more (h, tt)
          | inr last ↦ rw last (h, tt)
        ])
        g (parse_nl_if_msg_from-Calm nl buf type os _ _ _ s s (Calm-self s))
  advance-Leads (in_query (frees_queried frame buf)) s (g, _) = g
  advance-Leads (in_registration (filters_first r)) s (g, _) = (g, tt)
  advance-Leads (in_registration (filters_rest r)) s (g, _) = to_callback-Leads r _ g
  advance-Leads (in_registration (keeps_control f d)) s (g, _) =
      (((λ started. callback), g.1, g.2, g.3), callback)
  advance-Leads (in_registration (starts_control d)) s (g, set) =
      elim (Bool-cases (is_zero (os.result (pthread_create in_control ∷ s.log)))) [
        | inl created ↦ rw created (to_data-Leads d _ ((λ started. set), g.1, g.2, g.3))
        | inr refused ↦ rw refused ((λ started. set), g.1, g.2, g.3)
      ]
  advance-Leads (in_registration (keeps_data f)) s (g, _) =
      ((g.0, (λ started. callback), g.2, g.3), callback)
  advance-Leads (in_registration starts_data) s (g, set) =
      elim (Bool-cases (is_zero (os.result (pthread_create in_data ∷ s.log)))) [
        | inl created ↦ rw created ((g.0, (λ started. set), g.2, g.3), tt)
        | inr refused ↦ rw refused (g.0, (λ started. set), g.2, g.3)
      ]
  advance-Leads (in_registration (keeps_outgoing f)) s (g, _) =
      ((g.0, g.1, (λ started. callback), g.3), callback)
  advance-Leads (in_registration starts_outgoing) s (g, set) =
      elim (Bool-cases (is_zero (os.result (pthread_create out ∷ s.log)))) [
        | inl created ↦ rw created ((g.0, g.1, (λ started. set), g.3), tt)
        | inr refused ↦ rw refused (g.0, g.1, (λ started. set), g.3)
      ]
  advance-Leads (in_registration (keeps_forwarded f)) s (g, _) =
      ((g.0, g.1, g.2, (λ started. callback)), callback)
  advance-Leads (in_registration starts_forwarded) s (g, set) =
      elim (Bool-cases (is_zero (os.result (pthread_create for ∷ s.log)))) [
        | inl created ↦ rw created ((g.0, g.1, g.2, (λ started. set)), tt)
        | inr refused ↦ rw refused (g.0, g.1, g.2, (λ started. set))
      ]
  advance-Leads (in_registration frees_registered) s (g, _) = g

  entry-Ready : (s : State) (c : Call) → Guarded s → Ready (first c) (locked s)
  unfolding first
  entry-Ready s (adding stack dest hop) g = (g, tt)
  entry-Ready s (deleting stack dest hop) g = (g, tt)
  entry-Ready s (getting stack interface type) g = (g, tt)
  entry-Ready s (registering r) g = (g, tt)

  Guarded-IsMonitor : IsMonitor os nl (λ s cs. Guarded s) (λ p s cs. Ready p s)
  Guarded-IsMonitor = record {
    by_entry = λ s cs c g. entry-Ready s c g;
    by_advance = λ p s cs h. advance-Leads p s h;
    touch_free = λ s t cs touched g. Calm-Guarded (Touched-Calm touched) g;
    touch_within = λ p s t cs touched h. (
      Calm-Guarded (Touched-Calm touched) h.0,
      Calm-IsReady (starting p) (Touched-Calm touched) h.1,
    );
  }

  course-Guarded :
      (nf : Netfilter) (s : State) (count : ℕ) (ms : List Step)
      → Guarded s
      → Guarded (course os nl nf ms (idle count s)).world.shared
  course-Guarded nf s count ms g =
      elim (course-Monitored os nl _ _ Guarded-IsMonitor nf s count ms g) [
        | inl (_, h) ↦ h
        | inr o ↦ o.holds.0
      ]

  -- Threads that are in no call and have no packet at first make the calls that take the mutex, send,
  -- and handle packets, in any order of their steps; no queue has a thread yet. Then whenever the
  -- creation of a plane's thread is among the calls made, a handler of the plane that asks the user
  -- calls the callback registered for it at that moment, and never through a null pointer.
  pub course-called :
      (nf : Netfilter) (s : State) (count : ℕ) (ms : List Step) (plane : Plane)
      → ((p : Plane) → spawned p s.log ≡ false)
      → spawned plane (course os nl nf ms (idle count s)).world.shared.log ≡ true
      → let t = (course os nl nf ms (idle count s)).world.shared in
        (f : CallbackFunction) × (registered plane t ≡ some f)
        × ((id : ℕ) (args : Arguments)
            → step_task nf os (asks_user plane id args) t ≡ done (in_callback plane id f args) t)
  unfolding step_task
  course-called nf s count ms plane unstarted started = found (registered plane t) refl
    where
      t : State
      t = (course os nl nf ms (idle count s)).world.shared

      unset : (p : Plane) → HasCallback s p
      unset p started' missing = let e = unstarted p in cc

      guarded : Guarded t
      guarded = course-Guarded nf s count ms (unset in_control, unset in_data, unset out, unset for)

      at : (p : Plane) → Guarded t → spawned p t.log ≡ true → registered p t ≢ none
      at in_control g = g.0
      at in_data g = g.1
      at out g = g.2
      at for g = g.3

      found :
          (cb : Option CallbackFunction)
          → registered plane t ≡ cb
          → (f : CallbackFunction) × (registered plane t ≡ some f)
            × ((id : ℕ) (args : Arguments)
                → step_task nf os (asks_user plane id args) t
                  ≡ done (in_callback plane id f args) t)
      found none e = absurd (at plane guarded started e)
      found (some f) e = (f, e, λ id args. rw e refl)
