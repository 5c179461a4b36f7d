-- ===== src/Health/Selection.antt =====
-- health/selection.py: which node is the healthiest, for auto-failover and the connect-best route.
pub mod Score
pub mod Ranking
use v2pi.Base.{
  ℕ, ◌+◌, ◌-◌, ◌*◌, ◌^◌, max, Bool, true, false, not, ◌&&◌, ◌||◌, ltb, leb, ◌==◌, id_eq, is_some,
  get_or, Option, none, some, List, [], ◌∷◌, map, keep, any_of, if◌then◌else◌,
}
use v2pi.Base.Int.{ℤ, pos, neg, lt_ℤ, eq_ℤ}
use v2pi.Base.Sort.{sort}
use v2pi.Settings.{Row, blank, num, junk, unreadable, Settings, flag}
use v2pi.Node.{Node}
use v2pi.Health.{NodeHealth, find_health}

abbrev pub default_freshness_ttl : ℕ
default_freshness_ttl = 180

abbrev pub default_active_interval : ℕ
default_active_interval = 60

abbrev pub default_sweep_interval : ℕ
default_sweep_interval = 1800

abbrev pub freshness_slack : ℕ
freshness_slack = 2

-- `_positive_float`
unfoldable pub positive_float : Row → ℕ → ℕ
positive_float (num n) default = if ltb 0 n then n else default
positive_float _ default = default

-- `_sweep_enabled`
unfoldable pub sweep_enabled : Settings → Bool
sweep_enabled s = elim (flag true s.health_enabled) [
  | none ↦ false
  | some on ↦ on && (elim (flag true s.health_sweep_enabled) [ none ↦ false | some sweep ↦ sweep ])
]

unfoldable pub active_freshness_ttl : Settings → ℕ
unfolding positive_float
active_freshness_ttl s =
    max default_freshness_ttl
      (positive_float s.health_active_interval default_active_interval * freshness_slack)

-- `none` is "don't gate on freshness at all".
unfoldable pub standby_freshness_ttl : Settings → Option ℕ
unfolding sweep_enabled positive_float
standby_freshness_ttl s =
    if not (sweep_enabled s)
    then none
    else some (
        max (active_freshness_ttl s)
          (positive_float s.health_interval default_sweep_interval * freshness_slack))

-- The truth of a result that may be missing.
abbrev pub is_true : Option Bool → Bool
is_true none = false
is_true (some b) = b

-- A missing latency counts as 10^9 ms; a reading of 0 ms is a reading.
unfoldable pub lat : Option ℕ → ℤ
lat v = neg (get_or v (10 ^ 9))

score_of : NodeHealth → ℕ × ℤ
score_of h =
    if is_true h.last_real_ok
    then (3, lat h.last_real_ms)
    else if is_true h.last_http_ok
    then (2, lat h.last_http_ms)
    else if is_true h.last_tcp_ok
    then (1, lat h.last_tcp_ms)
    else (0, pos 0)

unfoldable pub health_score : Option NodeHealth → ℕ × ℤ
unfolding score_of
health_score none = (0, pos 0)
health_score (some h) = score_of h

-- `_alive`
unfoldable pub alive : Option NodeHealth → Bool
alive none = false
alive (some h) = is_true h.last_real_ok || is_true h.last_http_ok || is_true h.last_tcp_ok

-- The clock may stand before the stamp: the age is then 0.
unfoldable pub health_age_seconds : Option NodeHealth → ℕ → Option ℕ
health_age_seconds none now = none
health_age_seconds (some h) now = elim h.checked_at [ none ↦ none | some t ↦ some (now - t) ]

unfoldable pub health_fresh : Option NodeHealth → ℕ → ℕ → Bool
unfolding health_age_seconds
health_fresh h now ttl = elim (health_age_seconds h now) [ none ↦ false | some age ↦ leb age ttl ]

-- A node whose own failures reach the threshold is not trusted.
trusted : Option NodeHealth → Option ℕ → ℕ
trusted none limit = 1
trusted (some h) none = 1
trusted (some h) (some limit) = if leb limit h.fail_count then 0 else 1

abbrev pub Rank : Type 0
Rank = ℕ × ℕ × ℤ

-- `_rank_key`
unfoldable pub rank_key : Option NodeHealth → Option ℕ → Rank
unfolding trusted
rank_key h limit = let (tier, latency) = health_score h in (trusted h limit, tier, latency)

-- Python's order of tuples.
unfoldable pub rank_lt : Rank → Rank → Bool
rank_lt (t, c, l) (t', c', l') = ltb t t' || (t == t' && (ltb c c' || (c == c' && lt_ℤ l l')))

-- What the selection is asked for.
pub record Query : Type 0 where
  pub health : List NodeHealth
  pub exclude_id : Option ℕ
  pub exclude_ids : List ℕ
  pub require_alive : Bool
  pub now : ℕ
  pub freshness_ttl : Option ℕ
  pub max_fail_count : Option ℕ

-- `n.id not in {exclude_id, *exclude_ids}`
unfoldable pub excluded : Query → Node → Bool
excluded q n = any_of (id_eq n.id) (q.exclude_id ∷ map some q.exclude_ids)

-- The gate on the age of a snapshot, where there is one.
keep_fresh : Query → Option ℕ → List Node → List Node
keep_fresh q none nodes = nodes
keep_fresh q (some ttl) nodes = keep (λ n. health_fresh (find_health q.health n.id) q.now ttl) nodes

keep_alive : Query → Bool → List Node → List Node
keep_alive q false nodes = nodes
keep_alive q true nodes = keep (λ n. alive (find_health q.health n.id)) nodes

-- The three filters of `ranked_nodes`, in their order.
unfoldable pub eligible : Query → List Node → List Node
unfolding keep_fresh keep_alive
eligible q nodes =
    let usable = keep (λ n. not n.stale && not (excluded q n)) nodes in
    keep_alive q q.require_alive (keep_fresh q q.freshness_ttl usable)

unfoldable pub above : Query → Node → Node → Bool
above q a b =
    rank_lt (rank_key (find_health q.health b.id) q.max_fail_count)
      (rank_key (find_health q.health a.id) q.max_fail_count)

unfoldable pub ranked_nodes : Query → List Node → List Node
ranked_nodes q nodes = sort (above q) (eligible q nodes)

abbrev pub first {ℓ} : {A : Type ℓ} → List A → Option A
first [] = none
first (x ∷ xs) = some x

unfoldable pub best_node : Query → List Node → Option Node
best_node q nodes = first (ranked_nodes q nodes)
