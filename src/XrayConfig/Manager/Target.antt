-- ===== src/XrayConfig/Manager/Target.antt =====
-- xray_config/validate.py: what an apply leaves for a rollback to put back.
use v2pi.Base.{
  Bool, true, false, String, eq_iff, none, some, ◌≡◌, refl, ap, sym, ◌∙◌, ◌⊎◌, ◌≢◌, subst, inl, inr,
  arith, Bool-cases,
}
use v2pi.XrayConfig.Manager.{
  File, absent, unreadable, content, Slot, WriteEnv, ApplyEnv, invalidated, pair, Disk, applied,
  renamed, unlinked, unlink, write_atomic, fsync_dir, is_synced, settle, put_live, apply, apply_to,
  apply_over, pair_and_install, invalidate_provenance, rollback_target, vouched, vouches,
  apply_irreversible, invalidate_durably,
}
use v2pi.XrayConfig.Manager.Revoked.{
  put_live-marker, invalidate_durably-live, invalidate_durably-shown,
}
use v2pi.XrayConfig.Manager.Run.{Written-cases, renamed-shown}

pub renamed_of :
    {A : Type 0} (env : WriteEnv) (v : A) (s : Slot A)
    → env.replaced ≡ true
    → write_atomic env v s ≡ renamed (fsync_dir env.sync) (settle (is_synced env.sync) v s)
unfolding write_atomic
renamed_of env v s w = rw w

module _ {Cfg : Type 0} where
  pub put_live_cases :
      (env : WriteEnv) (cfg : Cfg) (d : Disk Cfg)
      → (((put_live env cfg d).1.live ≡ d.live) × ((put_live env cfg d).0 ≢ applied))
        ⊎ (((put_live env cfg d).1.live.shown ≡ content cfg) × ((put_live env cfg d).0 ≡ applied))
  unfolding put_live
  put_live_cases env cfg d = elim (Written-cases (write_atomic env cfg d.live)) [
    | inl e ↦ rw (e, put_live) (inl (refl, λ q. cc))
    | inr (durable, (s, e)) ↦ rw (e, put_live) (inr (renamed-shown env cfg d.live e, refl))
  ]

  pub apply_irreversible-installs :
      (valid : Bool) (mark install : WriteEnv) (cfg : Cfg) (d : Disk Cfg)
      → let r = apply_irreversible valid mark install cfg d in
        ((r.1.live ≡ d.live) × (r.0 ≢ applied))
        ⊎ ((r.1.live.shown ≡ content cfg)
            × (r.0 ≡ applied)
            × (r.1.marker.shown ≡ content invalidated))
  unfolding apply_irreversible
  apply_irreversible-installs false mark install cfg d = inl (refl, λ e. cc)
  apply_irreversible-installs true mark install cfg d =
      elim (Bool-cases (invalidate_durably mark d).0) [
        | inl e ↦ rw e (elim (put_live_cases install cfg (invalidate_durably mark d).1) [
          | inl q ↦ inl (q.0 ∙ invalidate_durably-live mark d, q.1)
          | inr q ↦ inr (
            q.0,
            q.1,
            ap (λ m. m.shown) (put_live-marker install cfg _) ∙ invalidate_durably-shown mark d e,
          )
        ])
        | inr e ↦ rw e (inl (invalidate_durably-live mark d, λ q. cc))
      ]

module _ {Cfg : Type 0} (digest : Cfg → String) where
  -- A snapshot with the marker that pairs it with the live config is offered.
  pub paired-target :
      (d : Disk Cfg) (c n : Cfg)
      → d.lastgood.shown ≡ content c
      → d.marker.shown ≡ content (pair (digest c) (digest n))
      → d.live.shown ≡ content n
      → rollback_target digest d ≡ some c
  unfolding rollback_target vouched vouches
  paired-target d c n l m v =
      rw (l, rollback_target)
        (rw (m, vouched)
          (rw (v, vouched)
            (ground (arith, eq_iff (digest c) (digest c), eq_iff (digest n) (digest n)))))

  pub put_live-shown :
      (env : WriteEnv) (cfg : Cfg) (d : Disk Cfg)
      → (put_live env cfg d).0 ≡ applied
      → ((put_live env cfg d).1.live.shown ≡ content cfg)
        × ((put_live env cfg d).1.marker ≡ d.marker)
        × ((put_live env cfg d).1.lastgood ≡ d.lastgood)
  unfolding put_live
  put_live-shown env cfg d h = elim (Written-cases (write_atomic env cfg d.live)) [
    | inl e ↦ absurd (cc (h, e))
    | inr (durable, (s, e)) ↦ rw (e, put_live) (renamed-shown env cfg d.live e, refl, refl)
  ]

  pair_and_install-target :
      (env : ApplyEnv) (previous cfg : Cfg) (d : Disk Cfg)
      → d.lastgood.shown ≡ content previous
      → (pair_and_install digest env previous cfg d).0 ≡ applied
      → (rollback_target digest (pair_and_install digest env previous cfg d).1 ≡ some previous)
        × ((pair_and_install digest env previous cfg d).1.live.shown ≡ content cfg)
  unfolding pair_and_install
  pair_and_install-target env previous cfg d l h =
      elim (Written-cases (write_atomic env.mark (pair (digest previous) (digest cfg)) d.marker)) [
        | inl e ↦ absurd (cc (h, e))
        | inr (durable, (s, e)) ↦
            let d' : Disk Cfg = record d { marker = s } in
            let r = put_live-shown env.install cfg d' (rw (e, pair_and_install) at h) in
            rw (e, pair_and_install)
              (
                paired-target (put_live env.install cfg d').1 previous cfg
                    (ap (λ t. t.shown) r.2 ∙ l)
                    (ap (λ t. t.shown) r.1
                      ∙ renamed-shown env.mark (pair (digest previous) (digest cfg)) d.marker e)
                    r.0,
                r.0,
              )
      ]

  pub apply_over-target :
      (env : ApplyEnv) (previous cfg : Cfg) (d : Disk Cfg)
      → (apply_over digest env previous cfg d).0 ≡ applied
      → (rollback_target digest (apply_over digest env previous cfg d).1 ≡ some previous)
        × ((apply_over digest env previous cfg d).1.live.shown ≡ content cfg)
  unfolding apply_over
  apply_over-target env previous cfg d h =
      elim (Written-cases (write_atomic env.snapshot previous d.lastgood)) [
        | inl e ↦ absurd (cc (h, e))
        | inr (durable, (s, e)) ↦
            rw (e, apply_over)
              (pair_and_install-target env previous cfg (record d { lastgood = s })
                (renamed-shown env.snapshot previous d.lastgood e) (rw (e, apply_over) at h))
      ]

  -- After an apply over a config that could be read, that config is what is offered.
  pub apply-target :
      (valid : Bool) (env : ApplyEnv) (cfg previous : Cfg) (d : Disk Cfg)
      → d.live.shown ≡ content previous
      → (apply digest valid env cfg d).0 ≡ applied
      → (rollback_target digest (apply digest valid env cfg d).1 ≡ some previous)
        × ((apply digest valid env cfg d).1.live.shown ≡ content cfg)
  unfolding apply apply_to
  apply-target false env cfg previous d v h = absurd (cc h)
  apply-target true env cfg previous d v h =
      subst
        (λ f.
          (apply_to digest env f cfg d).0 ≡ applied
          → (rollback_target digest (apply_to digest env f cfg d).1 ≡ some previous)
            × ((apply_to digest env f cfg d).1.live.shown ≡ content cfg))
        (sym v) (apply_over-target env previous cfg d) h

  pub no_marker-no_target :
      (d : Disk Cfg) → d.marker.shown ≡ absent → rollback_target digest d ≡ none
  unfolding rollback_target vouched
  no_marker-no_target d m = offered d.lastgood.shown refl
    where
      offered : (f : File Cfg) → d.lastgood.shown ≡ f → rollback_target digest d ≡ none
      offered (content c) e = rw (e, rollback_target) (ap (λ g. vouched digest g c d.live.shown) m)
      offered absent e = rw (e, rollback_target)
      offered unreadable e = rw (e, rollback_target)

  pub put_live-no_target :
      (env : WriteEnv) (cfg : Cfg) (d : Disk Cfg)
      → d.marker.shown ≡ absent
      → rollback_target digest (put_live env cfg d).1 ≡ none
  unfolding put_live
  put_live-no_target env cfg d m = elim (Written-cases (write_atomic env cfg d.live)) [
    | inl e ↦ rw (e, put_live) (no_marker-no_target d m)
    | inr (durable, (s, e)) ↦ rw (e, put_live) (no_marker-no_target (record d { live = s }) m)
  ]

  -- Where the live config could not be read and the marker could be dropped, nothing is offered.
  pub apply-no_target :
      (env : ApplyEnv) (cfg : Cfg) (d : Disk Cfg)
      → ((c : Cfg) → d.live.shown ≢ content c)
      → env.drop ≡ unlinked
      → rollback_target digest (apply digest true env cfg d).1 ≡ none
  unfolding apply apply_to invalidate_provenance unlink
  apply-no_target env cfg d v u = by_file d.live.shown v
    where
      dropped : (invalidate_provenance env.drop d).marker.shown ≡ absent
      dropped = ap (λ u. (unlink u d.marker).shown) u

      by_file :
          (f : File Cfg)
          → ((c : Cfg) → f ≢ content c)
          → rollback_target digest (apply_to digest env f cfg d).1 ≡ none
      by_file (content c) n = absurd (n c refl)
      by_file absent n = put_live-no_target env.install cfg _ dropped
      by_file unreadable n = put_live-no_target env.install cfg _ dropped
