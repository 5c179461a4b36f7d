-- ===== src/Settings.antt =====
-- The settings table, read as the health loops read it: one row for each key that they use.
use v2pi.Base.{ℕ, ◌==◌, Bool, false, Option, none, some}

-- What `store.get_setting(key)` gives: no row or an empty text, which Python's `or` treats alike; a
-- text that is the number `n`; another text; or an exception.
pub data Row : Type 0 where
  blank : Row
  num : ℕ → Row
  junk : Row
  unreadable : Row

pub record Settings : Type 0 where
  pub failover_enabled : Row
  pub health_hysteresis : Row
  pub failover_cooldown : Row
  pub active_node_id : Row
  pub last_failover_at : Row
  pub last_demoted_node_id : Row
  pub last_all_down_at : Row
  pub health_enabled : Row
  pub health_sweep_enabled : Row
  pub health_active_interval : Row
  pub health_interval : Row

-- `(store.get_setting(key) or default) == "1"`, where `none` is an exception.
abbrev pub flag : Bool → Row → Option Bool
flag default blank = some default
flag default (num n) = some (n == 1)
flag default junk = some false
flag default unreadable = none

-- `int(store.get_setting(key) or default)`, where `none` is an exception.
abbrev pub number : ℕ → Row → Option ℕ
number default blank = some default
number default (num n) = some n
number default junk = none
number default unreadable = none

-- `int(raw) if raw else None`: the outer `none` is an exception.
abbrev pub optional_number : Row → Option (Option ℕ)
optional_number blank = some none
optional_number (num n) = some (some n)
optional_number junk = none
optional_number unreadable = none
