-- ===== src/Traffic/Routes/Requests.antt =====
-- The requests for routes that have been sent, and the table that they leave.
use manet_testbed.Base.{
  ℕ, ℤ, suc, length, Bool, Option, none, some, List, [], ◌∷◌, ◌++◌, ◌≡◌, refl, sym, ap, ◌∙◌, arith,
}
use mathlib.Core.List.{append_assoc}
use manet_testbed.Netlink.{Netlink}
use manet_testbed.Api.{Action, Os}
use manet_testbed.Route.Kernel.{
  Table, Kernel, IsDocumented, Operation, add, delete, action_of, dest_of, hop_of, request,
  effect_if, effects, effects-append, kernel_table, performed, outcomes, request_lem,
}
use manet_testbed.Interleaving.{Call, adding, deleting, getting, registering}

-- The changes of routes among the calls.
abbrev pub operations : List Call → List Operation
operations [] = []
operations (adding stack dest hop ∷ cs) = add dest hop ∷ operations cs
operations (deleting stack dest hop ∷ cs) = delete dest hop ∷ operations cs
operations (_ ∷ cs) = operations cs

pub operations-append :
    (cs : List Call) (c : Call) → operations (cs ++ (c ∷ [])) ≡ operations cs ++ operations (c ∷ [])
operations-append [] c = refl
operations-append (adding stack dest hop ∷ cs) c =
    ap (λ l. add dest hop ∷ l) (operations-append cs c)
operations-append (deleting stack dest hop ∷ cs) c =
    ap (λ l. delete dest hop ∷ l) (operations-append cs c)
operations-append (getting stack interface type ∷ cs) c = operations-append cs c
operations-append (registering g ∷ cs) c = operations-append cs c

length-snoc :
    {A B : Type 0} (xs : List A) (ys : List B) (x : A) (y : B)
    → length xs ≡ length ys
    → length (xs ++ (x ∷ [])) ≡ length (ys ++ (y ∷ []))
length-snoc [] [] x y n = refl
length-snoc [] (_ ∷ _) x y n = absurd (omega arith)
length-snoc (_ ∷ _) [] x y n = absurd (omega arith)
length-snoc (_ ∷ xs) (_ ∷ ys) x y n = ap suc (length-snoc xs ys x y (omega arith))

module _ (kernel : Kernel) (os : Os) (nl : Netlink) (before : Table) where
  abbrev pub table_of : List Action → Table
  table_of = kernel_table kernel os nl before

  -- From the history `start` on, requests for the operations have been sent, and the table is the one
  -- then with those operations performed that the kernel has performed.
  abbrev pub Through : (start : List Action) → List Operation → (log : List Action) → Type 0
  Through start ops log =
      (bs : List Bool) × (outcomes kernel os nl before log
        ≡ outcomes kernel os nl before start ++ bs)
      × (length bs ≡ length ops)
      × (table_of log ≡ effects bs ops (table_of start))

  -- The last operation is the one whose request is pending.
  abbrev pub Due :
      (start : List Action) → List Operation → Option (ℕ × ℕ × ℕ) → List Action → Type 0
  Due start ops none log = Through start ops log
  Due start ops (some (dest, hop, action)) log =
      (earlier : List Operation) × (o : Operation) × (ops ≡ earlier ++ (o ∷ []))
      × (dest_of o ≡ dest)
      × (hop_of o ≡ hop)
      × (action_of o ≡ action)
      × Through start earlier log

  module _ (is : IsDocumented kernel) where
    pub sent-Through :
        (start : List Action) (earlier ops : List Operation) (o : Operation) (fd : ℤ)
        (log : List Action)
        → ops ≡ earlier ++ (o ∷ [])
        → Through start earlier log
        → Through start ops (request nl fd o ∷ log)
    unfolding outcomes
    sent-Through start earlier ops o fd log last (bs, told, n, table) =
        let b = performed kernel os nl before (request nl fd o) log in
        (
          bs ++ (b ∷ []),
          ap (λ l. l ++ (b ∷ [])) told
              ∙ append_assoc (outcomes kernel os nl before start) bs (b ∷ []),
          rw last (length-snoc bs earlier b o n),
          request_lem kernel is os nl before fd o log
              ∙ ap (effect_if b o) table
              ∙ sym (effects-append bs earlier b o (table_of start) n)
              ∙ ap (λ l. effects (bs ++ (b ∷ [])) l (table_of start)) (sym last),
        )
