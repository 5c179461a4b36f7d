-- ===== src/Enforcement/Recorded.antt =====
-- controller.py: what the snapshot of the enforcement may be believed to say.
use v2pi.Base.{◌≡◌, ◌≢◌, Bool, true, false, ◌⊎◌, [], String, Option, none, some}
use Prim.Native.String.{◌++◌ as ◌<>◌}
use v2pi.Enforcement.Closed.{IsIdle}
use v2pi.Enforcement.{
  NetResult, Method, apply_tproxy, apply_guard, teardown, result, plan, confirmed, Net, Env, set,
  release_emergency_deny, kill_switch_on,
}

abbrev pub is_guard : Method → Bool
is_guard apply_tproxy = false
is_guard apply_guard = true
is_guard teardown = false

module _ {Plan Host : Type 0} (env : Env Plan Host) where
  -- The state of tunnel and kill switch that each method is for.
  abbrev pub CallsFor : Method → Type 0
  CallsFor apply_tproxy = (env.running ≡ true) × (set env.active_node_id ≡ some true)
  CallsFor apply_guard = IsIdle env × (kill_switch_on env ≡ some true)
  CallsFor teardown = IsIdle env × (kill_switch_on env ≡ some false)

  -- The plan of the store, widened to the names that the cover lists, where it lists any; and the
  -- cover is known.
  abbrev pub Covers : Plan → Type 0
  Covers q =
      (p : Plan) × ((env.from_store ≡ plan p)
        × (env.cover_known ≡ true)
        × (((env.cover_names ≡ []) × (q ≡ p))
            ⊎ ((env.cover_names ≢ []) × (q ≡ env.covering_plan p env.cover_names))))

  -- The plan that a method is called with: none for a teardown.
  abbrev pub Renders : Method → Option Plan → Type 0
  Renders teardown p = p ≡ none
  Renders apply_tproxy p = (q : Plan) × (p ≡ some q) × Covers q
  Renders apply_guard p = (q : Plan) × (p ≡ some q) × Covers q

  -- The backend confirmed the method that the state calls for, with that plan, nothing holds the
  -- forward path any more, and the snapshot says so.
  pub record Confirmation (net after : Net Host) : Type 0 where
    pub method : Method
    pub called_for : CallsFor method
    pub with_plan : Option Plan
    pub renders : Renders method with_plan
    pub reply : NetResult
    pub host : Host
    pub called : env.call method with_plan net.host ≡ (result reply, host)
    pub reply_ok : reply.ok ≡ true
    pub released : (release_emergency_deny env host).0 ≡ ""
    pub left : after.host ≡ (release_emergency_deny env host).1
    pub status : after.status ≡ confirmed
    pub wan_blocked : after.wan_blocked ≡ some (is_guard method)

  -- What `record_enforcement` has to show for an answer that is ok.
  abbrev Kept : NetResult → Bool → Net Host → Option NetResult × Net Host → Type 0
  Kept r wan net (none, after) = Unit
  Kept r wan net (some r', after) =
      r'.ok ≡ true
      → (r.ok ≡ true)
        × ((release_emergency_deny env net.host).0 ≡ "")
        × (after.host ≡ (release_emergency_deny env net.host).1)
        × (after.status ≡ confirmed)
        × (after.wan_blocked ≡ some wan)

  -- What an operation has to show.
  abbrev pub Shown : Net Host → Option NetResult × Net Host → Type 0
  Shown net (none, after) = Unit
  Shown net (some r, after) = r.ok ≡ true → Confirmation net after
