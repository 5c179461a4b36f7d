-- ===== src/Tests/Dnsmasq.antt =====
-- net_control/dnsmasq_supervisor.py: a candidate that exits, and the old config that comes back.
use v2pi.Base.{◌≡◌, ◌⊎◌, inl, inr, refl, true, false, some, []}
use v2pi.Dnsmasq.{Dnsmasq, Env, exited, running, apply}
use v2pi.Dnsmasq.Sound.{IsSound, Serves, apply-IsSound}

abbrev serving : Dnsmasq
serving = record {
  proc = some (record { pid = 7; alive = true; serves = some "a" });
  last_text = some "a";
  conf = some "a";
  lost = [];
}

abbrev failing : Env
failing = record {
  written = true;
  tested = true;
  stops = true;
  replaced = true;
  launch = exited 8;
  stops_again = true;
  restored = true;
  respawned = some 9;
}

serving-IsSound : IsSound serving
serving-IsSound = record { sole = refl; known = inr (inr refl) }

comes_back :
    (apply "b" failing serving).1.proc ≡ some (record { pid = 9; alive = true; serves = some "a" })
unfolding apply
comes_back = refl

apply-IsSound_example :
    let r = apply "b" failing serving in
    IsSound r.1
    × ((r.0 ≡ false)
        ⊎ ((running r.1 ≡ true) × Serves r.1.proc (some "b") × (r.1.last_text ≡ some "b")))
apply-IsSound_example = apply-IsSound "b" failing serving (inl refl) serving-IsSound
