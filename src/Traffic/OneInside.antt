-- ===== src/Traffic/OneInside.antt =====
-- The mutex in every course of the program, sends and packets among it.
use manet_testbed.Base.{ℕ, true, List, ◌≡◌, sym, ◌∙◌, inl, inr}
use manet_testbed.Netlink.{Netlink}
use manet_testbed.Api.{State, Run, done, blocked, fault, out_of_fuel, Os}
use manet_testbed.Queue.Handlers.{Netfilter}
use manet_testbed.Interleaving.{Call, Point, Next, goes, ends, advance}
use manet_testbed.Interleaving.Serial.{IsInside}
use manet_testbed.Traffic.{Step, idle, course}
use manet_testbed.Traffic.Monitor.{Onward, IsMonitor, course-Monitored}

module _ (os : Os) (nl : Netlink) where
  -- Of the variables nothing is asked: what remains is where the threads stand.
  abbrev pub Anything : State → List Call → Type 0
  Anything s cs = Unit {0}

  abbrev pub AnythingWithin : Point → State → List Call → Type 0
  AnythingWithin p s cs = Unit {0}

  onward : (r : Run Next) → Onward (λ q t. Unit {0}) (λ t. Unit {0}) r
  onward (done (goes q) t) = tt
  onward (done (ends e) t) = tt
  onward (blocked t) = tt
  onward (fault t) = tt
  onward (out_of_fuel t) = tt

  pub Anything-IsMonitor : IsMonitor os nl Anything AnythingWithin
  Anything-IsMonitor = record {
    by_entry = λ s cs c h. tt;
    by_advance = λ p s cs h. onward (advance os nl p s);
    touch_free = λ s t cs touched h. tt;
    touch_within = λ p s t cs touched h. tt;
  }

  -- Threads that are in no call and have no packet at first make the calls that take the mutex, send,
  -- and handle packets, whose callbacks call and send in turn, in any order of their steps. Two threads
  -- are never inside what the mutex guards at once, and while one is, the mutex is held.
  pub course-OneInside :
      (nf : Netfilter) (s : State) (count : ℕ) (ms : List Step) (i j : ℕ)
      → IsInside ((course os nl nf ms (idle count s)).world.places i)
      → IsInside ((course os nl nf ms (idle count s)).world.places j)
      → (i ≡ j) × ((course os nl nf ms (idle count s)).world.shared.lock ≡ true)
  course-OneInside nf s count ms i j in_i in_j =
      elim (course-Monitored os nl _ _ Anything-IsMonitor nf s count ms tt) [
        | inl (nobody, _) ↦ absurd (nobody i in_i)
        | inr o ↦ (o.only i in_i ∙ sym (o.only j in_j), o.held)
      ]
