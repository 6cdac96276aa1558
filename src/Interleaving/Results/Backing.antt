-- ===== src/Interleaving/Results/Backing.antt =====
-- Results that are backed, between any two steps of the threads.
use manet_testbed.Base.{
  ℕ, zero, suc, ℤ, pos, minus_one, is_zero, true, List, [], ◌∷◌, ◌++◌, ◌≡◌, inl, inr, ◌==◌,
  Bool-cases, length,
}
use manet_testbed.Netlink.{Netlink}
use manet_testbed.Api.{State, Os}
use manet_testbed.Interleaving.{Call, Ending, reads_error, reads_address, gives}
use manet_testbed.Interleaving.Schedule.{
  Place, outside, waits, leaves, World, put, returns, take_step, in_turn,
}
use manet_testbed.Interleaving.Noted.{Noted}
use manet_testbed.Interleaving.Serial.{mutex_lock-cases}
use manet_testbed.Interleaving.Results.Endings.{Backs, Pends}

module _ (os : Os) (nl : Netlink) where
  -- The call whose turn was `turn` backs the result.
  abbrev pub Backed : (turn : ℕ) → List Call → State → ℤ → Type 0
  Backed turn [] s r = ⊥
  Backed zero (c ∷ cs) s r = Backs os nl c s r
  Backed (suc turn) (c ∷ cs) s r = Backed turn cs (in_turn os nl (c ∷ []) s) r

  abbrev pub AllBacked : List (ℕ × ℤ) → List Call → State → Type 0
  AllBacked [] cs s = Unit {0}
  AllBacked ((turn, r) ∷ rest) cs s = Backed turn cs s r × AllBacked rest cs s

  Backed-append :
      (turn : ℕ) (cs : List Call) (c : Call) (s : State) (r : ℤ)
      → Backed turn cs s r
      → Backed turn (cs ++ (c ∷ [])) s r
  Backed-append turn [] c s r h = absurd h
  Backed-append zero (d ∷ cs) c s r h = h
  Backed-append (suc turn) (d ∷ cs) c s r h = Backed-append turn cs c _ r h

  AllBacked-append :
      (rs : List (ℕ × ℤ)) (cs : List Call) (c : Call) (s : State)
      → AllBacked rs cs s
      → AllBacked rs (cs ++ (c ∷ [])) s
  AllBacked-append [] cs c s h = tt
  AllBacked-append ((turn, r) ∷ rs) cs c s h =
      (Backed-append turn cs c s r h.0, AllBacked-append rs cs c s h.1)

  pub Backed-last :
      (cs : List Call) (c : Call) (s : State) (r : ℤ)
      → Backs os nl c (in_turn os nl cs s) r
      → Backed (length cs) (cs ++ (c ∷ [])) s r
  unfolding in_turn
  Backed-last [] c s r h = h
  Backed-last (d ∷ cs) c s r h = Backed-last cs c _ r h

  module _ (s : State) where
    -- Every result given is backed, and so is every one that is still to be made.
    abbrev pub Pending : (turn : ℕ) → Ending → State → List Call → Type 0
    Pending turn e shared cs = Pends os nl e (is_zero shared.f_err ≡ true) (Backed turn cs s)

    pub record Sound (w : World) : Type 0 where
      pub pending :
          (j turn : ℕ) (e : Ending) → w.places j ≡ leaves turn e → Pending turn e w.shared w.entered
      pub backed : AllBacked w.returned w.entered s

    pub Pends-mono :
        (e : Ending) (fine fine' : Type 0) (P Q : ℤ → Type 0)
        → (fine' → fine)
        → ((r : ℤ) → P r → Q r)
        → Pends os nl e fine P
        → Pends os nl e fine' Q
    Pends-mono reads_error fine fine' P Q back weaken h =
        (weaken minus_one h.0, λ ok. weaken (pos 0) (h.1 (back ok)))
    Pends-mono (reads_address frame buf) fine fine' P Q back weaken h = λ r. weaken r (h r)
    Pends-mono (gives n) fine fine' P Q back weaken h = weaken (pos n) h

    fine-before : (t u : State) → Noted t u → is_zero u.f_err ≡ true → is_zero t.f_err ≡ true
    fine-before t u noted fine = elim (Bool-cases (is_zero t.f_err)) [
      | inl ok ↦ ok
      | inr bad ↦ cc (fine, noted bad)
    ]

    -- The world with a thread elsewhere, where that thread has nothing to return or may return it.
    pub moved :
        (w : World) (i : ℕ) (p : Place) (shared : State)
        → Sound w
        → Noted w.shared shared
        → ((turn : ℕ) (e : Ending) → p ≡ leaves turn e → Pending turn e shared w.entered)
        → Sound (record w { shared = shared; places = put i p w.places })
    moved w i p shared sound noted fresh = record {
      pending = λ j turn e at. elim (Bool-cases (j == i)) [
        | inl here ↦ fresh turn e (rw here at at)
        | inr other ↦
            Pends-mono e _ _ (Backed turn w.entered s) _ (fine-before w.shared shared noted)
              (λ r h. h) (sound.pending j turn e (rw other at at))
      ];
      backed = sound.backed;
    }

    pub returned :
        (w : World) (i turn : ℕ) (r : ℤ)
        → Sound w
        → Backed turn w.entered s r
        → Sound (returns w i turn r)
    returned w i turn r sound backed = record {
      pending = (moved w i outside w.shared sound (λ h. h) (λ turn' e h. cc)).pending;
      backed = (backed, sound.backed);
    }

    pub enter-Sound :
        (w : World) (i : ℕ) (c : Call) → Sound w → Sound (take_step os nl (waits c) i w)
    unfolding take_step
    enter-Sound w i c sound = elim (mutex_lock-cases w.shared) [
      | inl waiting ↦ rw waiting sound
      | inr (free, taken) ↦ rw taken (record {
        pending = λ j turn e at. elim (Bool-cases (j == i)) [
          | inl here ↦ cc (rw here at at)
          | inr other ↦
              Pends-mono e _ _ (Backed turn w.entered s) _ (λ h. h)
                (λ r h. Backed-append turn w.entered c s r h)
                (sound.pending j turn e (rw other at at))
        ];
        backed = AllBacked-append w.returned w.entered c s sound.backed;
      })
    ]
