-- ===== src/Health/Selection/Score.antt =====
-- health/selection.py: the order that `health_score` and `_rank_key` give, against the ladder
-- "real request, then handshake, then TCP, then nothing; the quicker of two equals first".
use v2pi.Base.{
  ℕ, ◌≡◌, ◌≤◌, ◌<◌, ◌^◌, arith, true, false, Option, none, some, zero, suc, Bool-cases, inl, inr,
  eq_of_some,
}
use v2pi.Base.Int.{neg, lt_ℤ}
use v2pi.Settings.{Settings}
use v2pi.Health.{NodeHealth}
use v2pi.Health.Selection.{
  is_true, lat, health_score, rank_key, rank_lt, active_freshness_ttl, standby_freshness_ttl,
  sweep_enabled,
}

-- The first latency is known, and below the second, which counts as 10^9 ms where it is missing.
pub data Quicker : Option ℕ → Option ℕ → Type 0 where
  both : {a b : ℕ} → a < b → Quicker (some a) (some b)
  only : {a : ℕ} → a < 10 ^ 9 → Quicker (some a) none

lt_ℤ-neg : (a b : ℕ) → a < b → lt_ℤ (neg b) (neg a) ≡ true
lt_ℤ-neg zero zero h = absurd (omega arith)
lt_ℤ-neg zero (suc b) h = ground arith
lt_ℤ-neg (suc a) zero h = absurd (omega arith)
lt_ℤ-neg (suc a) (suc b) h = ground arith

lat-Quicker : {a b : Option ℕ} → Quicker a b → lt_ℤ (lat b) (lat a) ≡ true
unfolding lat
lat-Quicker (Quicker.both {a} {b} h) = lt_ℤ-neg a b h
lat-Quicker (Quicker.only {a} h) = lt_ℤ-neg a (10 ^ 9) h

-- `h` is the healthier of two snapshots.
pub data Healthier (h g : NodeHealth) : Type 0 where
  real_request : is_true h.last_real_ok ≡ true → is_true g.last_real_ok ≡ false → Healthier h g
  handshake :
      is_true h.last_http_ok ≡ true
      → is_true g.last_real_ok ≡ false
      → is_true g.last_http_ok ≡ false
      → Healthier h g
  connection :
      is_true h.last_tcp_ok ≡ true
      → is_true g.last_real_ok ≡ false
      → is_true g.last_http_ok ≡ false
      → is_true g.last_tcp_ok ≡ false
      → Healthier h g
  real_quicker :
      is_true h.last_real_ok ≡ true
      → is_true g.last_real_ok ≡ true
      → Quicker h.last_real_ms g.last_real_ms
      → Healthier h g
  handshake_quicker :
      is_true h.last_real_ok ≡ false
      → is_true g.last_real_ok ≡ false
      → is_true h.last_http_ok ≡ true
      → is_true g.last_http_ok ≡ true
      → Quicker h.last_http_ms g.last_http_ms
      → Healthier h g

-- Of two snapshots the healthier ranks above, if its failures are below the limit.
pub rank_key-Healthier :
    (h g : NodeHealth) (limit : ℕ)
    → Healthier h g
    → h.fail_count < limit
    → rank_lt (rank_key (some g) (some limit)) (rank_key (some h) (some limit)) ≡ true
unfolding rank_lt rank_key health_score
rank_key-Healthier h g limit (Healthier.real_request a b) k = ground arith
rank_key-Healthier h g limit (Healthier.handshake a b c) k = ground arith
rank_key-Healthier h g limit (Healthier.connection a b c d) k = ground arith
rank_key-Healthier h g limit (Healthier.real_quicker a b q) k = ground (arith, lat-Quicker q)
rank_key-Healthier h g limit (Healthier.handshake_quicker a b c d q) k =
    ground (arith, lat-Quicker q)

-- A node that has reached the limit of failures ranks below every node that has not.
pub rank_key-distrusted :
    (h g : NodeHealth) (limit : ℕ)
    → h.fail_count < limit
    → limit ≤ g.fail_count
    → rank_lt (rank_key (some g) (some limit)) (rank_key (some h) (some limit)) ≡ true
unfolding rank_lt rank_key
rank_key-distrusted h g limit a b = ground arith

-- A standby is never judged by a shorter budget than the active node, whose budget is at least
-- 180 s.
pub standby_freshness_ttl-covers :
    (s : Settings) (ttl : ℕ)
    → standby_freshness_ttl s ≡ some ttl
    → (180 ≤ active_freshness_ttl s) × (active_freshness_ttl s ≤ ttl)
unfolding active_freshness_ttl standby_freshness_ttl
standby_freshness_ttl-covers s ttl h = elim (Bool-cases (sweep_enabled s)) [
  | inl on ↦ omega (arith, eq_of_some (rw on at h))
  | inr off ↦ ground arith
]
