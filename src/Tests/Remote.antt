-- ===== src/Tests/Remote.antt =====
-- rw_inbound.py: a phone that is lost, and a laptop that stays.
use v2pi.Base.{true, false, some, none, String, [], ◌∷◌}
use v2pi.XrayConfig.Builder.{Config, Options, build_config}
use v2pi.Remote.{entry, other, Roster, delete_client, set_client_enabled, Stored, Checks, resolve}
use v2pi.Remote.Revoked.{Refuses, delete_client-Refuses}
use v2pi.Tests.Builder.{node, gateway, options, config_of, is_built_with}

abbrev phone : String
phone = "0b5d5ff1-8a3c-4d55-9c1e-1f2f3a4b5c6d"

abbrev roster : Roster
roster = some (
    entry (record { id = phone; email = "phone"; enabled = true })
    ∷ other
    ∷ entry
        (record { id = "0b5d5ff1-8a3c-4d55-9c1e-1f2f3a4b5c6e"; email = "laptop"; enabled = true })
    ∷ [])

abbrev checks : Checks
checks = record {
  port = λ s. some 443;
  dest = λ s. some s;
  server_names = λ names. some names;
  key = λ s. some s;
  short_ids = λ ids. some ids;
  hosts = λ s. some [];
}

abbrev stored : Stored
stored = record {
  enabled = some "1";
  private_key = some "k";
  dest = none;
  server_names = none;
  short_ids = none;
  port = none;
  hosts = none;
}

abbrev after : Roster → Options
after r = record options { rw_inbound = resolve checks stored r }

abbrev deleted : Config
deleted = config_of (build_config node gateway (after (delete_client phone roster).1))

abbrev suspended : Config
suspended = config_of (build_config node gateway (after (set_client_enabled phone false roster).1))

delete_client-Refuses_example : Refuses phone deleted × Refuses phone suspended
delete_client-Refuses_example =
    delete_client-Refuses phone roster checks stored node gateway options deleted suspended
      (is_built_with _) (is_built_with _)
