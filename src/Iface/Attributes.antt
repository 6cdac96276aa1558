-- ===== src/Iface/Attributes.antt =====
-- `for_each_rattr`: the attributes of a message as the macros find them, and the one that the loop
-- keeps.
use manet_testbed.Base.{
  ℕ, zero, suc, true, false, List, [], ◌∷◌, ◌++◌, if◌then◌else◌, ◌≡◌, refl, ◌<◌, arith,
}
use manet_testbed.Netlink.{Mem, Netlink}
use manet_testbed.Api.{State, Pointer, into, done}
use manet_testbed.Iface.{is_wanted, for_each_rattr}

module _ (nl : Netlink) (buf : Mem) where
  open nl use {rta_ok, rta_next, rta_data}

  -- From the attribute at `rta`, with `len` bytes left, the macros step through the attributes at
  -- the offsets of the list. Each step takes bytes off.
  pub data Attributes : ℕ → ℕ → List ℕ → Type 0 where
    end : {rta len : ℕ} → rta_ok buf rta len ≡ false → Attributes rta len []
    next :
        {rta len : ℕ} {later : List ℕ}
        → rta_ok buf rta len ≡ true
        → (rta_next buf rta len).1 < len
        → Attributes (rta_next buf rta len).0 (rta_next buf rta len).1 later
        → Attributes rta len (rta ∷ later)

  module _ (type frame : ℕ) where
    -- What `addr` is after the attributes: the data of the last one that is asked for.
    abbrev pub latest : Pointer → List ℕ → Pointer
    latest addr [] = addr
    latest addr (rta ∷ later) =
        latest (if is_wanted nl buf type rta then into frame (rta_data rta) else addr) later

    pub latest-append :
        (xs : List ℕ) (addr : Pointer) (ys : List ℕ)
        → latest addr (xs ++ ys) ≡ latest (latest addr xs) ys
    latest-append [] addr ys = refl
    latest-append (rta ∷ xs) addr ys = latest-append xs _ ys

  -- With more rounds than bytes the loop ends, and `addr` points at the data of the last attribute
  -- that is asked for, if there is one. Nothing else changes.
  pub for_each_rattr_lem :
      (rounds type : ℕ) {rta len : ℕ} {offsets : List ℕ}
      → Attributes rta len offsets
      → (s : State) → len < rounds
      → for_each_rattr nl rounds buf type rta len s
        ≡ done tt (record s { addr = latest type s.frame s.addr offsets })
  unfolding for_each_rattr
  for_each_rattr_lem zero type a s h = absurd (omega arith)
  for_each_rattr_lem (suc rounds) type (end stop) s h = rw stop
  for_each_rattr_lem (suc rounds) type (next go less later) s h =
      rw go (for_each_rattr_lem rounds type later _ (omega arith))
