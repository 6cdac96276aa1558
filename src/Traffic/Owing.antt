-- ===== src/Traffic/Owing.antt =====
-- What holds between the steps of the one thread that handles a plane's packets: those ruled, and the
-- one at hand, are those that arrived.
use manet_testbed.Base.{
  ℕ, true, false, List, [], ◌∷◌, ◌++◌, ◌≡◌, refl, sym, ap, ◌∙◌, inl, inr, ◌==◌, ==_iff, ==_self,
  Bool-cases, if◌then◌else◌,
}
use mathlib.Core.List.{append_assoc, append-nil}
use manet_testbed.Api.{Plane}
use manet_testbed.System.Calm.{same}
use manet_testbed.Traffic.{
  Task, unoccupied, tests_own, asks_user, in_callback, rules, Program, update, Step, calls, departs,
  answers, proceeds, arrives, idle,
}
use manet_testbed.Traffic.Spared.{verdicts}

-- The ids of the packets of a plane that were given a verdict, and of those that arrived.
abbrev pub ruled : Plane → List (Plane × ℕ × ℕ) → List ℕ
ruled q [] = []
ruled q ((plane, id, verdict) ∷ log) = (if same plane q then id ∷ [] else []) ++ ruled q log

abbrev pub handled : Plane → List (Plane × ℕ) → List ℕ
handled q [] = []
handled q ((plane, id) ∷ ps) = (if same plane q then id ∷ [] else []) ++ handled q ps

-- Packets of plane `q` are handled by thread `k` alone.
abbrev pub OnlyHandles : (k : ℕ) → Plane → List Step → Type 0
OnlyHandles k q [] = Unit {0}
OnlyHandles k q (arrives i plane packet ∷ ms) = (same plane q ≡ true → i ≡ k) × OnlyHandles k q ms
OnlyHandles k q (_ ∷ ms) = OnlyHandles k q ms

abbrev pub MayHandle : (k : ℕ) → Plane → Step → Type 0
MayHandle k q (arrives i plane packet) = same plane q ≡ true → i ≡ k
MayHandle k q _ = Unit {0}

pub OnlyHandles-each :
    (k : ℕ) (q : Plane) (m : Step) (ms : List Step)
    → OnlyHandles k q (m ∷ ms)
    → MayHandle k q m × OnlyHandles k q ms
OnlyHandles-each k q (calls i c) ms h = (tt, h)
OnlyHandles-each k q (departs i d) ms h = (tt, h)
OnlyHandles-each k q (arrives i plane packet) ms h = h
OnlyHandles-each k q (answers i ret) ms h = (tt, h)
OnlyHandles-each k q (proceeds i) ms h = (tt, h)

abbrev pub owing : Plane → Plane → ℕ → List ℕ
owing q plane id = if same plane q then id ∷ [] else []

-- The id that is still to be given a verdict.
abbrev pub owed : Plane → Task → List ℕ
owed q unoccupied = []
owed q (tests_own plane id p_data) = owing q plane id
owed q (asks_user plane id args) = owing q plane id
owed q (in_callback plane id callback args) = owing q plane id
owed q (rules plane id verdict) = owing q plane id

module _ (k : ℕ) (q : Plane) (old : List ℕ) where
  pub record Balanced (x : Program) : Type 0 where
    pub only : (j : ℕ) → (k == j) ≡ false → owed q (x.tasks j) ≡ []
    pub balanced :
        owed q (x.tasks k) ++ ruled q (verdicts x.world.shared.log) ≡ handled q x.arrived ++ old

  pub spared-Balanced :
      (x y : Program)
      → y.tasks ≡ x.tasks
      → y.arrived ≡ x.arrived
      → verdicts y.world.shared.log ≡ verdicts x.world.shared.log
      → Balanced x
      → Balanced y
  spared-Balanced x y tasks arrived h v = record {
    only = λ j other. rw tasks (v.only j other);
    balanced = rw (tasks, arrived, h) v.balanced;
  }

  nil_of_append : (ms ns : List ℕ) → [] ≡ ms ++ ns → (ms ≡ []) × (ns ≡ [])
  nil_of_append [] ns h = (refl, sym h)
  nil_of_append (m ∷ ms) ns h = cc

  -- Thread `i` goes on with its packet, or gives it its verdict: what it owed, it owes or has given.
  pub moved-Balanced :
      (x y : Program) (i : ℕ) (task : Task) (given : List ℕ)
      → y.tasks ≡ update i task x.tasks
      → y.arrived ≡ x.arrived
      → ruled q (verdicts y.world.shared.log) ≡ given ++ ruled q (verdicts x.world.shared.log)
      → owed q (x.tasks i) ≡ owed q task ++ given
      → Balanced x
      → Balanced y
  moved-Balanced x y i task given tasks arrived log owes v = record {
    only = λ j other. elim (Bool-cases (j == i)) [
      | inl here ↦
          let at_i : j ≡ i = (==_iff j i).0 here in
          let idle : owed q (x.tasks i) ≡ [] =
            ap (λ n. owed q (x.tasks n)) (sym at_i) ∙ v.only j other in
          rw (tasks, here) (nil_of_append (owed q task) given (sym idle ∙ owes)).0
      | inr elsewhere ↦ rw (tasks, elsewhere) (v.only j other)
    ];
    balanced = elim (Bool-cases (k == i)) [
      | inl here ↦
          let at_i : k ≡ i = (==_iff k i).0 here in
          rw (tasks, here, arrived, log)
            (sym (append_assoc (owed q task) given (ruled q (verdicts x.world.shared.log)))
              ∙ ap (λ l. l ++ ruled q (verdicts x.world.shared.log))
                  (sym owes ∙ ap (λ n. owed q (x.tasks n)) (sym at_i))
              ∙ v.balanced)
      | inr elsewhere ↦
          let idle : owed q (x.tasks i) ≡ [] = v.only i elsewhere in
          rw
            (
              tasks,
              elsewhere,
              arrived,
              log,
              (nil_of_append (owed q task) given (sym idle ∙ owes)).1,
            )
            v.balanced
    ];
  }

  -- A packet arrives at thread `i`.
  pub taken-Balanced :
      (x y : Program) (i : ℕ) (task : Task) (plane : Plane) (id : ℕ)
      → y.tasks ≡ update i task x.tasks
      → y.arrived ≡ (plane, id) ∷ x.arrived
      → verdicts y.world.shared.log ≡ verdicts x.world.shared.log
      → owed q task ≡ owing q plane id
      → owed q (x.tasks i) ≡ []
      → (same plane q ≡ true → i ≡ k)
      → Balanced x
      → Balanced y
  taken-Balanced x y i task plane id tasks arrived log owes idle mine v =
      elim (Bool-cases (same plane q)) [
        | inl yes_q ↦
            let at_k : i ≡ k = mine yes_q in
            let was_idle : owed q (x.tasks k) ≡ [] =
              ap (λ n. owed q (x.tasks n)) (sym at_k) ∙ idle in
            record {
              only = λ j other. elim (Bool-cases (j == i)) [
                | inl here ↦ absurd (apart k j other ((==_iff j i).0 here ∙ at_k))
                | inr elsewhere ↦ rw (tasks, elsewhere) (v.only j other)
              ];
              balanced =
                  rw (tasks, at_k, ==_self k, arrived, log, owes, yes_q)
                    (ap (λ l. id ∷ l) (rw was_idle at v.balanced));
            }
        | inr no_q ↦
            let nothing : owed q task ≡ [] = owes ∙ (rw no_q refl) in
            record {
              only = λ j other. elim (Bool-cases (j == i)) [
                | inl here ↦ rw (tasks, here) nothing
                | inr elsewhere ↦ rw (tasks, elsewhere) (v.only j other)
              ];
              balanced = elim (Bool-cases (k == i)) [
                | inl here ↦
                    let at_i : k ≡ i = (==_iff k i).0 here in
                    let was_idle : owed q (x.tasks k) ≡ [] =
                      ap (λ n. owed q (x.tasks n)) at_i ∙ idle in
                    rw (tasks, here, nothing, arrived, no_q, log) (rw was_idle at v.balanced)
                | inr elsewhere ↦ rw (tasks, elsewhere, arrived, no_q, log) v.balanced
              ];
            }
      ]
    where
      apart : (m n : ℕ) → (m == n) ≡ false → n ≡ m → ⊥
      apart m n differ e = cc (differ, (==_iff m n).1 (sym e))

  -- The thread goes on with its packet.
  pub kept-Balanced :
      (x y : Program) (i : ℕ) (task : Task)
      → y.tasks ≡ update i task x.tasks
      → y.arrived ≡ x.arrived
      → verdicts y.world.shared.log ≡ verdicts x.world.shared.log
      → owed q (x.tasks i) ≡ owed q task
      → Balanced x
      → Balanced y
  kept-Balanced x y i task tasks arrived log owes =
      moved-Balanced x y i task [] tasks arrived (ap (ruled q) log)
        (owes ∙ sym (append-nil (owed q task)))
