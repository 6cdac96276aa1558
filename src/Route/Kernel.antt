-- ===== src/Route/Kernel.antt =====
-- The kernel as the other side of src/api_route.c: a parameter that decides on the messages that reach
-- it, with what rtnetlink(7) says of additions and deletions as hypotheses.
use manet_testbed.Base.{
  ℕ, ℤ, length, arith, Bool, true, false, Option, none, some, List, [], ◌∷◌, ◌++◌, ◌≡◌, refl,
  if◌then◌else◌, ◌==◌, is_neg, u8,
}
use manet_testbed.Netlink.{
  Netlink, af_inet, rtm_newroute, rtm_delroute, rt_table_main, rtprot_static, rt_scope_universe,
  rtn_unicast,
}
use manet_testbed.Api.{route, Action, sendmsg, Os}
use manet_testbed.Route.{form_route, wlan0_index}
use manet_testbed.Route.Request.{Change, decode, decode-form_route}

-- The main table: the next hop of each destination that has a route.
abbrev pub Table : Type 0
Table = ℕ → Option ℕ

abbrev pub put : ℕ → Option ℕ → Table → Table
put dest hop table d = if d == dest then hop else table d

-- What the kernel does with a message that reaches it: the table after it, or none if it refuses.
pub record Kernel : Type 0 where
  pub decide : Change → Table → Option Table

-- A request about one static unicast route of the main table to one address.
abbrev pub IsAbout : (kind : ℕ) → Change → Type 0
IsAbout kind c =
    (c.kind ≡ kind)
    × (c.is_request ≡ true)
    × (c.family ≡ af_inet)
    × (c.table ≡ rt_table_main)
    × (c.prefix ≡ 32)
    × (c.route_type ≡ rtn_unicast)
    × (c.protocol ≡ rtprot_static)
    × (c.scope ≡ rt_scope_universe)

-- The kernel as documented. Where it performs a request for a new route that creates one and replaces
-- one that is there, the destination has the route asked for, and no other route has changed; where it
-- performs a request to delete one, the destination had that route and has none, and no other route
-- has changed. It may refuse either.
pub record IsDocumented (kernel : Kernel) : Type 0 where
  pub adds :
      (c : Change) (table after : Table)
      → IsAbout rtm_newroute c
      → c.replaces ≡ true
      → c.creates ≡ true
      → kernel.decide c table ≡ some after
      → after ≡ put c.destination (some c.gateway) table
  pub deletes :
      (c : Change) (table after : Table)
      → IsAbout rtm_delroute c
      → kernel.decide c table ≡ some after
      → (table c.destination ≡ some c.gateway) × (after ≡ put c.destination none table)

-- The operations of the API on routes.
pub data Operation : Type 0 where
  add delete : (dest next_hop : ℕ) → Operation

abbrev pub action_of : Operation → ℕ
action_of (add dest hop) = rtm_newroute
action_of (delete dest hop) = rtm_delroute

abbrev pub dest_of : Operation → ℕ
dest_of (add dest hop) = dest
dest_of (delete dest hop) = dest

abbrev pub hop_of : Operation → ℕ
hop_of (add dest hop) = hop
hop_of (delete dest hop) = hop

-- What they promise of the table: a map from destinations to next hops.
abbrev pub effect : Operation → Table → Table
effect (add dest hop) table = put dest (some hop) table
effect (delete dest hop) table = put dest none table

abbrev pub effect_if : Bool → Operation → Table → Table
effect_if true o table = effect o table
effect_if false o table = table

-- Operations in turn, of which those are performed whose Boolean is true.
unfoldable pub effects : List Bool → List Operation → Table → Table
effects [] os table = table
effects (b ∷ bs) [] table = table
effects (b ∷ bs) (o ∷ os) table = effects bs os (effect_if b o table)

-- The request that is sent for an operation.
abbrev pub request : Netlink → (fd : ℤ) → Operation → Action
request nl fd o = sendmsg fd (route (form_route nl af_inet (dest_of o) (hop_of o) (action_of o)))

module _ (kernel : Kernel) where
  abbrev decided : Option Change → Table → Option Table
  decided none table = none
  decided (some c) table = kernel.decide c table

  abbrev or_same : Table → Option Table → Table
  or_same table none = table
  or_same table (some after) = after

  abbrev is_performed : Option Table → Bool
  is_performed none = false
  is_performed (some after) = true

  -- A message that is not sent reaches no kernel.
  abbrev reaching : (unsent : Bool) → Option Change → Table → Option Table
  reaching true c table = none
  reaching false c table = decided c table

  module _ (os : Os) (nl : Netlink) (before : Table) where
    -- The kernel's table after the calls of a history, the newest first, from the table before: the
    -- messages that `sendmsg` sent have reached the kernel.
    unfoldable pub kernel_table : List Action → Table
    kernel_table [] = before
    kernel_table (sendmsg fd (route req) ∷ log) = or_same (kernel_table log) (
        reaching (is_neg (os.result (sendmsg fd (route req) ∷ log))) (decode nl req)
          (kernel_table log))
    kernel_table (_ ∷ log) = kernel_table log

    -- Whether the kernel has performed a request that is sent behind the history `log`.
    abbrev pub performed : (fd_request : Action) → List Action → Bool
    performed (sendmsg fd (route req)) log = is_performed (
        reaching (is_neg (os.result (sendmsg fd (route req) ∷ log))) (decode nl req)
          (kernel_table log))
    performed _ log = false

    -- Which requests of a history the kernel has performed, the oldest first.
    unfoldable pub outcomes : List Action → List Bool
    outcomes [] = []
    outcomes (sendmsg fd (route req) ∷ log) =
        outcomes log ++ (performed (sendmsg fd (route req)) log ∷ [])
    outcomes (_ ∷ log) = outcomes log

-- The message of an operation, as the kernel reads it.
abbrev change_of : Operation → Change
change_of o = record {
  kind = u8 (action_of o);
  is_request = true;
  wants_ack = true;
  replaces = true;
  creates = true;
  family = af_inet;
  table = rt_table_main;
  protocol = rtprot_static;
  scope = rt_scope_universe;
  route_type = rtn_unicast;
  prefix = 32;
  destination = dest_of o;
  device = wlan0_index;
  gateway = hop_of o;
}

module _ (kernel : Kernel) (is : IsDocumented kernel) where
  decide_lem :
      (o : Operation) (table : Table) (d : Option Table)
      → kernel.decide (change_of o) table ≡ d
      → or_same kernel table d ≡ effect_if (is_performed kernel d) o table
  decide_lem o table none e = refl
  decide_lem (add dest hop) table (some after) e =
      is.adds (change_of (add dest hop)) table after
        (refl, refl, refl, refl, refl, refl, refl, refl) refl refl e
  decide_lem (delete dest hop) table (some after) e =
      (is.deletes (change_of (delete dest hop)) table after
        (refl, refl, refl, refl, refl, refl, refl, refl) e).1

  reaching_lem :
      (unsent : Bool) (o : Operation) (table : Table)
      → or_same kernel table (reaching kernel unsent (some (change_of o)) table)
        ≡ effect_if
            (is_performed kernel (reaching kernel unsent (some (change_of o)) table))
            o
            table
  reaching_lem true o table = refl
  reaching_lem false o table = decide_lem o table _ refl

  module _ (os : Os) (nl : Netlink) (before : Table) where
    -- A request of the API takes the table where its operation takes it, or is not performed.
    pub request_lem :
        (fd : ℤ) (o : Operation) (log : List Action)
        → kernel_table kernel os nl before (request nl fd o ∷ log)
          ≡ effect_if
              (performed kernel os nl before (request nl fd o) log)
              o
              (kernel_table kernel os nl before log)
    unfolding kernel_table
    request_lem fd o log =
        rw (decode-form_route nl af_inet (dest_of o) (hop_of o) (action_of o))
          (reaching_lem _ o (kernel_table kernel os nl before log))

-- One operation more.
pub effects-append :
    (bs : List Bool) (ops : List Operation) (b : Bool) (o : Operation) (table : Table)
    → length bs ≡ length ops
    → effects (bs ++ (b ∷ [])) (ops ++ (o ∷ [])) table ≡ effect_if b o (effects bs ops table)
unfolding effects
effects-append [] [] b o table n = refl
effects-append [] (_ ∷ _) b o table n = absurd (omega arith)
effects-append (_ ∷ _) [] b o table n = absurd (omega arith)
effects-append (c ∷ bs) (p ∷ ops) b o table n = effects-append bs ops b o _ (omega arith)
