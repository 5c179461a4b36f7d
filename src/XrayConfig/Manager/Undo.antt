-- ===== src/XrayConfig/Manager/Undo.antt =====
-- xray_config/validate.py: what `rollback` offers after an apply, and what it does.
use v2pi.Base.{
  Bool, true, false, String, none, some, ◌≡◌, refl, ap, ◌∙◌, ◌⊎◌, ◌≢◌, inl, inr, arith,
  Option-cases,
}
use v2pi.XrayConfig.Manager.{
  File, absent, unreadable, content, WriteEnv, ApplyEnv, Marker, pair, Disk, applied, write_atomic,
  put_live, apply, apply_to, apply_over, pair_and_install, invalidate_provenance, rollback,
  rollback_target, promote, vouched, apply_irreversible,
}
use v2pi.XrayConfig.Manager.Revoked.{sealed-no_target}
use v2pi.XrayConfig.Manager.Run.{Written-cases, renamed-shown}
use v2pi.XrayConfig.Manager.Target.{
  renamed_of, put_live_cases, apply_irreversible-installs, paired-target, put_live-shown,
  apply_over-target, apply-target,
}

module _ {Cfg : Type 0} (digest : Cfg → String) where
  promote-lem :
      (install mark : WriteEnv) (c : Cfg) (d : Disk Cfg)
      → d.lastgood.shown ≡ content c
      → (promote digest install mark c d).0 ≡ some true
      → ((promote digest install mark c d).1.live.shown ≡ content c)
        × (rollback_target digest (promote digest install mark c d).1 ≡ some c)
  unfolding promote
  promote-lem install mark c d l h = elim (Written-cases (write_atomic install c d.live)) [
    | inl e ↦ absurd (cc (h, e))
    | inr (durable, (s, e)) ↦
        elim (Written-cases (write_atomic mark (pair (digest c) (digest c)) d.marker)) [
          | inl e' ↦ absurd (cc (h, e, e'))
          | inr (durable', (m, e')) ↦
              let live = renamed-shown install c d.live e in
              rw (e, promote)
                (rw (e', promote)
                  (
                    live,
                    paired-target digest (record { live = s; lastgood = d.lastgood; marker = m }) c
                        c l (renamed-shown mark (pair (digest c) (digest c)) d.marker e') live,
                  ))
        ]
  ]

  rollback_target-lastgood :
      (d : Disk Cfg) (c : Cfg) → rollback_target digest d ≡ some c → d.lastgood.shown ≡ content c
  unfolding rollback_target vouched
  rollback_target-lastgood d c h = by_file d.lastgood.shown refl
    where
      same : (f : File Marker) (c' : Cfg) (l : File Cfg) → vouched digest f c' l ≡ some c → c' ≡ c
      same (content m) c' (content l) q = ground arith
      same (content m) c' absent q = absurd (cc q)
      same (content m) c' unreadable q = absurd (cc q)
      same absent c' l q = absurd (cc q)
      same unreadable c' l q = absurd (cc q)

      by_file : (f : File Cfg) → d.lastgood.shown ≡ f → d.lastgood.shown ≡ content c
      by_file (content c') e =
          e ∙ ap content (same d.marker.shown c' d.live.shown (rw (e, rollback_target) at h))
      by_file absent e = absurd (cc (h, e))
      by_file unreadable e = absurd (cc (h, e))

  rollback-installs :
      (install mark : WriteEnv) (c : Cfg) (d : Disk Cfg)
      → rollback_target digest d ≡ some c
      → (rollback digest install mark d).0 ≡ some true
      → ((rollback digest install mark d).1.live.shown ≡ content c)
        × (rollback_target digest (rollback digest install mark d).1 ≡ some c)
  unfolding rollback
  rollback-installs install mark c d t h =
      rw (t, rollback)
        (promote-lem install mark c d (rollback_target-lastgood d c t) (rw (t, rollback) at h))

  put_live-applied :
      (env : WriteEnv) (cfg : Cfg) (d : Disk Cfg)
      → env.replaced ≡ true
      → (put_live env cfg d).0 ≡ applied
  unfolding put_live
  put_live-applied env cfg d w = rw (renamed_of env cfg d.live w, put_live)

  -- An apply of a valid config answers that it is installed, if its writes succeed.
  apply-applied :
      (env : ApplyEnv) (cfg : Cfg) (d : Disk Cfg)
      → env.snapshot.replaced ≡ true
      → env.mark.replaced ≡ true
      → env.install.replaced ≡ true
      → (apply digest true env cfg d).0 ≡ applied
  unfolding apply apply_to apply_over pair_and_install
  apply-applied env cfg d s m i = by_file d.live.shown
    where
      by_file : (f : File Cfg) → (apply_to digest env f cfg d).0 ≡ applied
      by_file (content previous) =
          rw (renamed_of env.snapshot previous d.lastgood s, apply_over)
            (rw
              (
                renamed_of env.mark (pair (digest previous) (digest cfg)) d.marker m,
                pair_and_install,
              )
              (put_live-applied env.install cfg _ i))
      by_file absent = put_live-applied env.install cfg _ i
      by_file unreadable = put_live-applied env.install cfg _ i

  rollback-answers :
      (install mark : WriteEnv) (c : Cfg) (d : Disk Cfg)
      → rollback_target digest d ≡ some c
      → install.replaced ≡ true
      → mark.replaced ≡ true
      → (rollback digest install mark d).0 ≡ some true
  unfolding rollback promote
  rollback-answers install mark c d t i m =
      rw (t, rollback)
        (rw (renamed_of install c d.live i, promote)
          (rw (renamed_of mark (pair (digest c) (digest c)) d.marker m, promote)))

  -- Where the writes succeed, a valid apply over a config that could be read is installed; the
  -- rollback after it answers true, puts back the config that was live before, and offers it again.
  pub apply-rollback :
      (env : ApplyEnv) (cfg previous : Cfg) (d : Disk Cfg) (install mark : WriteEnv)
      → d.live.shown ≡ content previous
      → (env.snapshot.replaced ≡ true) × (env.mark.replaced ≡ true) × (env.install.replaced ≡ true)
      → (install.replaced ≡ true) × (mark.replaced ≡ true)
      → let r = apply digest true env cfg d in
        let b = rollback digest install mark r.1 in
        (r.0 ≡ applied)
        × (r.1.live.shown ≡ content cfg)
        × (b.0 ≡ some true)
        × (b.1.live.shown ≡ content previous)
        × (rollback_target digest b.1 ≡ some previous)
  apply-rollback env cfg previous d install mark v w u =
      let h = apply-applied env cfg d w.0 w.1 w.2 in
      let t = apply-target digest true env cfg previous d v h in
      let b = rollback-answers install mark previous _ t.0 u.0 u.1 in
      let p = rollback-installs install mark previous (apply digest true env cfg d).1 t.0 b in
      (h, t.1, b, p.0, p.1)

  -- An apply that answers that it is done has put its config on the disk.
  pub apply-live :
      (valid : Bool) (env : ApplyEnv) (cfg : Cfg) (d : Disk Cfg)
      → (apply digest valid env cfg d).0 ≡ applied
      → (apply digest valid env cfg d).1.live.shown ≡ content cfg
  unfolding apply apply_to
  apply-live false env cfg d h = absurd (cc h)
  apply-live true env cfg d h = by_file d.live.shown h
    where
      by_file :
          (f : File Cfg)
          → (apply_to digest env f cfg d).0 ≡ applied
          → (apply_to digest env f cfg d).1.live.shown ≡ content cfg
      by_file (content previous) q = (apply_over-target digest env previous cfg d q).1
      by_file absent q = (put_live-shown digest env.install cfg _ q).0
      by_file unreadable q = (put_live-shown digest env.install cfg _ q).0

  -- A revocation leaves the live config as it was, or has put its own there, with nothing on offer.
  pub apply_irreversible_cases :
      (valid : Bool) (mark install : WriteEnv) (cfg : Cfg) (d : Disk Cfg)
      → let r = apply_irreversible valid mark install cfg d in
        ((r.1.live ≡ d.live) × (r.0 ≢ applied))
        ⊎ ((r.1.live.shown ≡ content cfg) × (r.0 ≡ applied) × (rollback_target digest r.1 ≡ none))
  apply_irreversible_cases valid mark install cfg d =
      elim (apply_irreversible-installs valid mark install cfg d) [
        | inl e ↦ inl e
        | inr (l, a, s) ↦ inr (l, a, sealed-no_target digest _ s)
      ]

  -- A rollback that answers true has installed what was on offer.
  pub rollback-true :
      (install mark : WriteEnv) (d : Disk Cfg)
      → (rollback digest install mark d).0 ≡ some true
      → (c : Cfg) × ((rollback_target digest d ≡ some c)
          × ((rollback digest install mark d).1.live.shown ≡ content c))
  unfolding rollback
  rollback-true install mark d h = elim (Option-cases (rollback_target digest d)) [
    | inl e ↦ absurd (cc (rw (e, rollback) at h))
    | inr (c, e) ↦ (c, (e, (rollback-installs install mark c d e h).0))
  ]

  -- An apply that is not done leaves the live config alone.
  pub apply-untouched :
      (valid : Bool) (env : ApplyEnv) (cfg : Cfg) (d : Disk Cfg)
      → (apply digest valid env cfg d).0 ≢ applied
      → (apply digest valid env cfg d).1.live ≡ d.live
  unfolding apply apply_to apply_over pair_and_install invalidate_provenance
  apply-untouched false env cfg d h = refl
  apply-untouched true env cfg d h = by_file d.live.shown h
    where
      last :
          (d' : Disk Cfg)
          → (put_live env.install cfg d').0 ≢ applied
          → (put_live env.install cfg d').1.live ≡ d'.live
      last d' n = elim (put_live_cases env.install cfg d') [ inl q ↦ q.0 | inr q ↦ absurd (n q.1) ]

      paired :
          (previous : Cfg) (d' : Disk Cfg)
          → (pair_and_install digest env previous cfg d').0 ≢ applied
          → (pair_and_install digest env previous cfg d').1.live ≡ d'.live
      paired previous d' n =
          elim (Written-cases
            (write_atomic env.mark (pair (digest previous) (digest cfg)) d'.marker)) [
              | inl e ↦ rw (e, pair_and_install) refl
              | inr (durable, (s, e)) ↦
                  rw (e, pair_and_install)
                    (last (record d' { marker = s }) (rw (e, pair_and_install) at n))
            ]

      by_file :
          (f : File Cfg)
          → (apply_to digest env f cfg d).0 ≢ applied
          → (apply_to digest env f cfg d).1.live ≡ d.live
      by_file (content previous) n =
          elim (Written-cases (write_atomic env.snapshot previous d.lastgood)) [
            | inl e ↦ rw (e, apply_over) refl
            | inr (durable, (s, e)) ↦
                rw (e, apply_over)
                  (paired previous (record d { lastgood = s }) (rw (e, apply_over) at n))
          ]
      by_file absent n = last _ n
      by_file unreadable n = last _ n
