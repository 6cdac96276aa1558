-- ===== src/Interleaving/Reads.antt =====
-- What is left of `GetInterfaceIP` when it has freed the mutex: the read of its result.
use manet_testbed.Base.{
  ℕ, zero, suc, String, ℤ, pos, u32_max, is_zero, false, Option, none, some, List, [], ◌∷◌, ◌≡◌,
  refl, sym, ap, ◌∙◌, if◌then◌else◌, ◌+◌, ◌==◌, ◌&&◌, not, to_size, Bool-cases, inl, inr, ==_iff,
  ◌<◌, arith,
}
use manet_testbed.Netlink.{Mem, Netlink, load_u32, nlmsg_done, nlmsg_error}
use manet_testbed.Api.{
  State, Reply, Pointer, null, into, Run, done, blocked, fault, out_of_fuel, pure, gets, and_then,
  ◌>>=◌, ◌>>◌, Os, call, check, receive, get_msg, message, failed, mutex_lock, mutex_unlock,
}
use manet_testbed.Api.Laws.{Leaves, Leaves-bind, Leaves-mono}
use manet_testbed.Iface.{
  get_ip, receive_all, load_addr, parse_nl_if_msg, query_interface, get_interface_ip,
}
use manet_testbed.System.{state_of}
use manet_testbed.System.Misread.{read_result}
use manet_testbed.Interleaving.{getting, reads_address, first, perform_call}
use manet_testbed.Interleaving.Still.{Still, parse_nl_if_msg-Still}
use manet_testbed.Interleaving.Finish.{finish, released}
use manet_testbed.Interleaving.Ends.{and_then-eq-done}
use manet_testbed.Interleaving.Whole.{locked, state_of-load_addr}
use manet_testbed.Interleaving.Schedule.{Place, buffer, or_else, live, put}

-- The number of calls of `GetInterfaceIP` stays.
abbrev pub SameFrame : State → State → Type 0
SameFrame s t = t.frame ≡ s.frame

pub get_msg-SameFrame : (buf : Mem) (s : State) → Leaves (SameFrame s) (get_msg buf s)
unfolding get_msg receive
get_msg-SameFrame buf s = received s.inbox
  where
    received : (replies : List Reply) → Leaves (SameFrame s) (receive buf s replies)
    received [] = refl
    received (failed ∷ rest) = refl
    received (message bs ∷ rest) = refl

-- The buffer, where a run left it, with the mutex freed, and the same as what is still to do.
release-reads :
    (frame : ℕ) (r : Run Mem)
    → and_then r (λ buf. released (reads_address frame buf))
      ≡ and_then
          (and_then r (λ buf. do mutex_unlock; pure buf))
          (λ buf. pure (reads_address frame buf))
unfolding mutex_unlock
release-reads frame (done a t) = refl
release-reads frame (blocked t) = refl
release-reads frame (fault t) = refl
release-reads frame (out_of_fuel t) = refl

module _ (os : Os) (nl : Netlink) where
  pub parsed-SameFrame :
      (buf : Mem) (len type : ℕ) (s t : State)
      → SameFrame s t
      → Leaves (SameFrame s) (parse_nl_if_msg os nl buf len type t)
  parsed-SameFrame buf len type s t c =
      Leaves-mono (Still t) (SameFrame s) (parse_nl_if_msg os nl buf len type t)
        (parse_nl_if_msg-Still nl buf type os len t) (λ v h. h.4 ∙ c)

  receive_all-SameFrame :
      (inbox : List Reply) (buf : Mem) (type : ℕ) (s t : State)
      → SameFrame s t
      → Leaves (SameFrame s) (receive_all os nl inbox buf type t)
  unfolding receive_all check
  receive_all-SameFrame [] buf type s t c = c
  receive_all-SameFrame (reply ∷ rest) buf type s t c =
      Leaves-bind (SameFrame s) (get_msg buf) _ _
        (Leaves-mono (SameFrame t) (SameFrame s) (get_msg buf _) (get_msg-SameFrame buf _)
          (λ u h. h ∙ c))
        λ (len, buf') u d.
          Leaves-bind (SameFrame s) (parse_nl_if_msg os nl buf' (to_size len) type) _ _
            (parsed-SameFrame buf' (to_size len) type s _ d)
            λ kind v e. elim (Bool-cases (not (kind == nlmsg_done) && not (kind == nlmsg_error))) [
              | inl more ↦ rw more (receive_all-SameFrame rest buf' type s v e)
              | inr last ↦ rw last e
            ]

  query_interface-reads :
      (stack : Mem) (interface : Option String) (type : ℕ) (s : State)
      → s.lock ≡ false
      → finish os nl (first (getting stack interface type)) (locked s)
        ≡ and_then
            (query_interface os nl stack interface type s)
            λ buf. pure (reads_address (s.frame + 1) buf)
  unfolding finish first query_interface get_ip call check mutex_lock
  query_interface-reads stack interface type s free =
      rw free (release-reads (s.frame + 1) (receive_all os nl s.inbox stack type _))

  queried-frame :
      (stack : Mem) (interface : Option String) (type : ℕ) (s : State)
      → s.lock ≡ false
      → Leaves (λ t. t.frame ≡ s.frame + 1) (query_interface os nl stack interface type s)
  unfolding query_interface get_ip call check mutex_lock mutex_unlock
  queried-frame stack interface type s free = rw free (
      Leaves-bind (λ t. t.frame ≡ s.frame + 1) (receive_all os nl s.inbox stack type) _ _
        (receive_all-SameFrame s.inbox stack type (record s { frame = s.frame + 1 }) _ refl)
        (λ buf t h. h))

  query_interface-frame :
      (stack : Mem) (interface : Option String) (type : ℕ) (s : State) {buf : Mem} {t : State}
      → s.lock ≡ false
      → query_interface os nl stack interface type s ≡ done buf t
      → t.frame ≡ s.frame + 1
  query_interface-frame stack interface type s free ended =
      rw ended at (queried-frame stack interface type s free)

-- The read leaves the state as it is.
read-keeps :
    (buf : Mem) (s : State) {a : ℕ} {t : State}
    → (if is_zero s.f_err then load_addr buf s else done u32_max s) ≡ done a t
    → s ≡ t
read-keeps buf s h = elim (Bool-cases (is_zero s.f_err)) [
  | inr noted ↦ same (rw noted at h)
  | inl fine ↦ sym (state_of-load_addr buf s) ∙ ap state_of (rw fine at h)
]
  where
    same : {a : ℕ} {t : State} → ◌≡◌ {A = Run ℕ} (done u32_max s) (done a t) → s ≡ t
    same e = cc

-- A read that succeeds finds the call's own buffer.
found :
    (find : ℕ → Option Mem) (buf : Mem) (s : State) {a : ℕ} {t : State}
    → find s.frame ≡ some buf
    → (if is_zero s.f_err then load_addr buf s else done u32_max s) ≡ done a t
    → read_result find s ≡ done a t
unfolding read_result load_addr
found find buf s at h = elim (Bool-cases (is_zero s.f_err)) [
  | inr noted ↦ rw noted (rw noted at h)
  | inl fine ↦ rw fine (through s.addr (rw fine at h))
]
  where
    faults : {a : ℕ} {t : State} → fault s ≡ done a t → ⊥
    faults e = cc

    through :
        {a : ℕ} {t : State} (p : Pointer)
        → (elim p [
          | null ↦ fault s
          | into frame offset ↦ if frame == s.frame then done (load_u32 buf offset) s else fault s
        ])
          ≡ done a t
        → (elim p [
          | null ↦ fault s
          | into frame offset ↦ elim (find frame) [
            | none ↦ fault s
            | some buf' ↦ done (load_u32 buf' offset) s
          ]
        ])
          ≡ done a t
    through null g = g
    through (into frame offset) g = elim (Bool-cases (frame == s.frame)) [
      | inl here ↦ rw (ap find ((==_iff frame s.frame).0 here), at) (rw here at g)
      | inr gone ↦ absurd (faults (rw gone at g))
    ]

or_else-none : (a b : Option Mem) → or_else a b ≡ none → (a ≡ none) × (b ≡ none)
or_else-none none b h = (refl, h)
or_else-none (some buf) b h = cc

-- The buffer of a thread that is put there, where no other is live under its number.
pub live-put :
    (n i : ℕ) (p : Place) (places : ℕ → Place) (frame : ℕ) {buf : Mem}
    → i < n
    → live n places frame ≡ none
    → buffer p frame ≡ some buf
    → live n (put i p places) frame ≡ some buf
unfolding live
live-put zero i p places frame below none_live at = absurd (omega arith)
live-put (suc n) i p places frame below none_live at = elim (Bool-cases (n == i)) [
  | inl here ↦ rw (here, at) refl
  | inr other ↦
      let (here, there) = or_else-none (buffer (places n) frame) (live n places frame) none_live in
      rw (other, here) (live-put n i p places frame (ground arith) there at)
]

module _ (os : Os) (nl : Netlink) where
  -- A call of `GetInterfaceIP` that returns, made in one piece, also ends by its steps, and reads
  -- the same result wherever its own buffer is found under its number.
  pub getting-ended :
      (stack : Mem) (interface : Option String) (type : ℕ) (s : State) (r : ℤ) (t : State)
      → s.lock ≡ false
      → perform_call os nl (getting stack interface type) s ≡ done r t
      → (buf : Mem) × (a : ℕ) × (finish os nl (first (getting stack interface type)) (locked s)
          ≡ done (reads_address (s.frame + 1) buf) t)
        × (pos a ≡ r)
        × ((find : ℕ → Option Mem) → find (s.frame + 1) ≡ some buf → read_result find t ≡ done a t)
  unfolding perform_call get_interface_ip
  getting-ended stack interface type s r t free whole =
      let (a, v, got, made) =
        and_then-eq-done (get_interface_ip os nl stack interface type s) (λ a. pure (pos a))
          whole in
      let (buf, u, queried, result) =
        and_then-eq-done (query_interface os nl stack interface type s) _ got in
      let result' : (if is_zero u.f_err then load_addr buf u else done u32_max u) ≡ done a v =
        pointwise buf u result in
      let same : v ≡ t = cc in
      let value : pos a ≡ r = cc in
      let now : u ≡ t = read-keeps buf u result' ∙ same in
      let number : u.frame ≡ s.frame + 1 =
        query_interface-frame os nl stack interface type s free queried in
      (
        buf,
        a,
        query_interface-reads os nl stack interface type s free
            ∙ rw queried (ap (done (reads_address (s.frame + 1) buf)) now),
        value,
        λ find at.
            ap (read_result find) (sym now)
            ∙ found find buf u (rw number at) result'
            ∙ ap (done a) same,
      )
    where
      pointwise :
          {a : ℕ} {t : State} (buf : Mem) (u : State)
          → (do f_err ← gets (λ s. s.f_err); if is_zero f_err then load_addr buf else pure u32_max)
              u
            ≡ done a t
          → (if is_zero u.f_err then load_addr buf u else done u32_max u) ≡ done a t
      pointwise buf u h = elim (Bool-cases (is_zero u.f_err)) [
        | inl fine ↦ rw fine (rw fine at h)
        | inr noted ↦ rw noted (rw noted at h)
      ]
