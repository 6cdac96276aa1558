-- ===== src/Route/Table.antt =====
-- A sequence of route changes as changes of a map, and what their results say of the kernel's table.
use manet_testbed.Base.{
  ℤ, pos, minus_one, is_neg, is_zero, Bool, false, List, [], ◌∷◌, ◌++◌, if◌then◌else◌, ◌≡◌, refl,
  sym, ap, ◌∙◌, length, arith, ◌&&◌, not, Bool-cases, inl, inr,
}
use mathlib.Core.List.{append_assoc, append-nil}
use manet_testbed.Netlink.{Mem, Netlink}
use manet_testbed.Api.{State, Action, Reply, M, pure, ◌>>=◌, Os}
use manet_testbed.Api.Laws.{Returns, Returns-bind, Returns-mono}
use manet_testbed.Route.{add_unicast_routing_entry, delete_entry}
use manet_testbed.Route.Outcome.{grants, Answered, add_unicast_routing_entry_lem, delete_entry_lem}
use manet_testbed.Route.Kernel.{
  Table, Kernel, IsDocumented, Operation, add, delete, effects, request, kernel_table, performed,
  outcomes, request_lem,
}

module _ (os : Os) (nl : Netlink) (stack : Mem) where
  pub perform : Operation → M ℤ
  perform (add dest hop) = add_unicast_routing_entry os nl stack dest hop
  perform (delete dest hop) = delete_entry os nl stack dest hop

  -- The operations in turn, and what they returned.
  pub perform_all : List Operation → M (List ℤ)
  perform_all [] = pure []
  perform_all (o ∷ rest) =
      let later = perform_all rest in do r ← perform o; rs ← later; pure (r ∷ rs)

  -- The mutex is free, and the rest of the replies are at hand.
  abbrev pub Ready : List Reply → State → Type 0
  Ready replies s = (s.lock ≡ false) × (s.inbox ≡ replies)

  perform-Answered :
      (o : Operation) (s : State) (reply : Reply) (rest : List Reply)
      → Ready (reply ∷ rest) s
      → Returns (Answered os nl stack (request nl s.fd o ∷ s.log) s reply rest) (perform o s)
  unfolding perform
  perform-Answered (add dest hop) s reply rest ready =
      add_unicast_routing_entry_lem os nl stack dest hop s reply rest ready.0 ready.1
  perform-Answered (delete dest hop) s reply rest ready =
      delete_entry_lem os nl stack dest hop s reply rest ready.0 ready.1

  module _ (kernel : Kernel) (is : IsDocumented kernel) (before : Table) where
    abbrev pub table_of : List Action → Table
    table_of = kernel_table kernel os nl before

    abbrev is_performed : ℤ → Operation → List Action → Bool
    is_performed fd o log = performed kernel os nl before (request nl fd o) log

    -- The kernel's replies are true: to each request that is sent, the reply that is taken for it
    -- reports no error exactly if the kernel performs it.
    abbrev pub AreTrue : (fd : ℤ) → List Operation → List Reply → List Action → Type 0
    AreTrue fd [] replies log = Unit {0}
    AreTrue fd (o ∷ ops) [] log = Unit {0}
    AreTrue fd (o ∷ ops) (reply ∷ rest) log =
        (is_neg (os.result (request nl fd o ∷ log)) ≡ false
          → grants os nl stack reply ≡ is_performed fd o log)
        × AreTrue fd ops rest (request nl fd o ∷ log)

    -- The results say how far all went well: 0 up to the first change that is not performed, and -1
    -- from there on.
    abbrev pub Report : (fine : Bool) → List Bool → List ℤ → Type 0
    Report fine [] [] = Unit {0}
    Report fine (b ∷ bs) (r ∷ rs) =
        (r ≡ (if fine && b then pos 0 else minus_one)) × Report (fine && b) bs rs
    Report fine _ _ = ⊥

    -- How a sequence of operations ends; `bs` says which of them the kernel has performed.
    abbrev pub PerformedAll : List Operation → State → List ℤ → State → Type 0
    PerformedAll ops s rs t =
        Ready [] t
        × ((bs : List Bool) × (outcomes kernel os nl before t.log
              ≡ outcomes kernel os nl before s.log ++ bs)
            × (table_of t.log ≡ effects bs ops (table_of s.log))
            × Report (is_zero s.f_err) bs rs)

    -- A request that is not sent is not performed.
    sent-performed :
        (fd : ℤ) (o : Operation) (log : List Action) (granted : Bool)
        → (is_neg (os.result (request nl fd o ∷ log)) ≡ false → granted ≡ is_performed fd o log)
        → (not (is_neg (os.result (request nl fd o ∷ log))) && granted) ≡ is_performed fd o log
    sent-performed fd o log granted agrees =
        elim (Bool-cases (is_neg (os.result (request nl fd o ∷ log)))) [
          | inl unsent ↦ rw unsent refl
          | inr sent ↦ rw sent (rw sent at (agrees sent))
        ]

    -- What one operation leaves, where the rest are still to come.
    abbrev PerformedOne : Operation → State → List Reply → ℤ → State → Type 0
    PerformedOne o s rest r t =
        Ready rest t
        × (t.log ≡ request nl s.fd o ∷ s.log)
        × (t.fd ≡ s.fd)
        × (is_zero t.f_err ≡ (is_zero s.f_err && is_performed s.fd o s.log))
        × (r ≡ (if is_zero s.f_err && is_performed s.fd o s.log then pos 0 else minus_one))

    perform-PerformedOne :
        (o : Operation) (s : State) (reply : Reply) (rest : List Reply)
        → Ready (reply ∷ rest) s
        → (is_neg (os.result (request nl s.fd o ∷ s.log)) ≡ false
            → grants os nl stack reply ≡ is_performed s.fd o s.log)
        → Returns (PerformedOne o s rest) (perform o s)
    perform-PerformedOne o s reply rest ready agrees =
        Returns-mono _ (PerformedOne o s rest) _ (perform-Answered o s reply rest ready)
          λ r t (result, noted, free, queued, log, fd).
            let all_well =
              noted ∙ ap (λ b. is_zero s.f_err && b) (sent-performed s.fd o s.log _ agrees) in
            (
              (free, queued),
              log,
              fd,
              all_well,
              result ∙ ap (λ b. if b then pos 0 else minus_one) all_well,
            )

    -- One operation before the others.
    prepend :
        (o : Operation) (ops : List Operation) (s t u : State) (rest : List Reply) (r : ℤ)
        (rs : List ℤ)
        → PerformedOne o s rest r t
        → PerformedAll ops t rs u
        → PerformedAll (o ∷ ops) s (r ∷ rs) u
    unfolding effects outcomes
    prepend o ops s t u rest r rs (ready, log, fd, fine, result)
          (done', (bs, told, table, report)) =
        let b = is_performed s.fd o s.log in
        (
          done',
          (
            b ∷ bs,
            told
                ∙ ap (λ l. outcomes kernel os nl before l ++ bs) log
                ∙ append_assoc (outcomes kernel os nl before s.log) (b ∷ []) bs,
            table
                ∙ ap (λ l. effects bs ops (table_of l)) log
                ∙ ap (effects bs ops) (request_lem kernel is os nl before s.fd o s.log),
            (result, rw fine at report),
          ),
        )

    -- With the mutex free, a reply at hand for each, and replies that are true, any sequence of
    -- additions and deletions returns, whatever the kernel, as documented, performs and refuses and
    -- whatever is sent. Its table then is the one before with those operations performed, in their
    -- order as changes of a map, that it has performed; and, with no error noted at first, the results
    -- are 0 up to the first operation that is not performed, and -1 from there on; they are all -1
    -- with one noted.
    pub perform_all_lem :
        (ops : List Operation) (replies : List Reply) (s : State)
        → length replies ≡ length ops
        → Ready replies s
        → AreTrue s.fd ops replies s.log
        → Returns (PerformedAll ops s) (perform_all ops s)
    unfolding perform_all effects
    perform_all_lem [] [] s n ready agrees =
        (ready, ([], sym (append-nil (outcomes kernel os nl before s.log)), refl, tt))
    perform_all_lem [] (_ ∷ _) s n ready agrees = absurd (omega arith)
    perform_all_lem (_ ∷ _) [] s n ready agrees = absurd (omega arith)
    perform_all_lem (o ∷ ops) (reply ∷ replies) s n ready agrees =
        Returns-bind (PerformedOne o s replies) (PerformedAll (o ∷ ops) s) (perform o) _ s
          (perform-PerformedOne o s reply replies ready agrees.0)
          λ r t h.
            Returns-bind (PerformedAll ops t) (λ rs u. PerformedAll (o ∷ ops) s rs u)
              (perform_all ops) _ t
              (perform_all_lem ops replies t (omega arith) h.0 (rw (h.1, h.2) agrees.1))
              λ rs u g. prepend o ops s t u replies r rs h g
