-- ===== src/XrayConfig/Manager/Revoked.antt =====
-- xray_config/validate.py: what `apply_irreversible` installs, no rollback undoes.
use v2pi.Base.{
  ℕ, Bool, true, false, String, none, some, List, [], ◌∷◌, ◌≡◌, refl, ap, sym, ◌∙◌, ◌⊎◌, ◌≢◌, subst,
  inl, inr, All, Bool-cases, arith,
}
use v2pi.XrayConfig.Manager.{
  File, absent, unreadable, content, other_errno, unsupported, DirSync, not_opened, not_synced,
  synced, fsync_dir, is_synced, WriteEnv, Marker, invalidated, Disk, applied, write_atomic,
  put_live, apply_irreversible, invalidate_durably, rollback, rollback_target, vouched, vouches,
}
use v2pi.XrayConfig.Manager.Run.{
  Event, applies, revokes, rolls_back, invalidates, cut, edits_live, edits_lastgood, Every,
  Every-after, Written-cases, Every-renamed, Every-durable, renamed-shown, renamed-answer, step,
  run,
}

abbrev IsInvalid : File Marker → Type 0
IsInvalid f = f ≡ content invalidated

-- The marker says that it is invalidated, after a power cut as well.
abbrev IsSealed : {Cfg : Type 0} → Disk Cfg → Type 0
IsSealed d = Every IsInvalid d.marker

-- The directory's file system supports fsync: one that fails, fails with an error of its own.
abbrev pub CanSync : DirSync → Type 0
CanSync (not_opened e) = e ≡ other_errno
CanSync (not_synced e) = e ≡ other_errno
CanSync synced = Unit

fsync_dir-synced : (s : DirSync) → CanSync s → fsync_dir s ≡ true → is_synced s ≡ true
unfolding fsync_dir unsupported is_synced
fsync_dir-synced (not_opened e) c h = absurd (cc (ap unsupported c, h))
fsync_dir-synced (not_synced e) c h = absurd (cc (ap unsupported c, h))
fsync_dir-synced synced c h = refl

module _ {Cfg : Type 0} where
  pub put_live-marker :
      (env : WriteEnv) (cfg : Cfg) (d : Disk Cfg) → (put_live env cfg d).1.marker ≡ d.marker
  unfolding put_live write_atomic
  put_live-marker env cfg d = ground arith

  pub invalidate_durably-shown :
      (env : WriteEnv) (d : Disk Cfg)
      → (invalidate_durably env d).0 ≡ true
      → (invalidate_durably env d).1.marker.shown ≡ content invalidated
  unfolding invalidate_durably
  invalidate_durably-shown env d h = elim (Written-cases (write_atomic env invalidated d.marker)) [
    | inl e ↦ absurd (cc (h, e))
    | inr (durable, (s, e)) ↦ rw (e, invalidate_durably) (renamed-shown env invalidated d.marker e)
  ]

  invalidate_durably-seals :
      (env : WriteEnv) (d : Disk Cfg)
      → CanSync env.sync
      → (invalidate_durably env d).0 ≡ true
      → IsSealed (invalidate_durably env d).1
  unfolding invalidate_durably
  invalidate_durably-seals env d c h =
      elim (Written-cases (write_atomic env invalidated d.marker)) [
        | inl e ↦ absurd (cc (h, e))
        | inr (durable, (s, e)) ↦
            rw (e, invalidate_durably)
              (Every-durable IsInvalid env invalidated d.marker e
                (fsync_dir-synced env.sync c
                  (renamed-answer env invalidated d.marker e ∙ (rw (e, invalidate_durably) at h)))
                refl)
      ]

  pub invalidate_durably-live :
      (env : WriteEnv) (d : Disk Cfg) → (invalidate_durably env d).1.live ≡ d.live
  unfolding invalidate_durably write_atomic
  invalidate_durably-live env d = ground arith

  invalidate_durably-keeps :
      (env : WriteEnv) (d : Disk Cfg) → IsSealed d → IsSealed (invalidate_durably env d).1
  unfolding invalidate_durably
  invalidate_durably-keeps env d h = elim (Written-cases (write_atomic env invalidated d.marker)) [
    | inl e ↦ rw (e, invalidate_durably) h
    | inr (durable, (s, e)) ↦
        rw (e, invalidate_durably) (Every-renamed IsInvalid env invalidated d.marker e refl h)
  ]

  put_live-keeps :
      (env : WriteEnv) (cfg : Cfg) (d : Disk Cfg) → IsSealed d → IsSealed (put_live env cfg d).1
  put_live-keeps env cfg d h = subst (Every IsInvalid) (sym (put_live-marker env cfg d)) h

  -- Either nothing was installed, or the marker was invalidated first.
  apply_irreversible-first :
      (valid : Bool) (mark install : WriteEnv) (cfg : Cfg) (d : Disk Cfg)
      → CanSync mark.sync
      → (((apply_irreversible valid mark install cfg d).1.live ≡ d.live)
          × ((apply_irreversible valid mark install cfg d).0 ≢ applied))
        ⊎ IsSealed (apply_irreversible valid mark install cfg d).1
  unfolding apply_irreversible
  apply_irreversible-first false mark install cfg d c = inl (refl, λ e. cc)
  apply_irreversible-first true mark install cfg d c =
      elim (Bool-cases (invalidate_durably mark d).0) [
        | inl e ↦ rw e (inr (put_live-keeps install cfg _ (invalidate_durably-seals mark d c e)))
        | inr e ↦ rw e (inl (invalidate_durably-live mark d, λ e. cc))
      ]

  apply_irreversible-keeps :
      (valid : Bool) (mark install : WriteEnv) (cfg : Cfg) (d : Disk Cfg)
      → IsSealed d
      → IsSealed (apply_irreversible valid mark install cfg d).1
  unfolding apply_irreversible
  apply_irreversible-keeps false mark install cfg d h = h
  apply_irreversible-keeps true mark install cfg d h =
      elim (Bool-cases (invalidate_durably mark d).0) [
        | inl e ↦ rw e (put_live-keeps install cfg _ (invalidate_durably-keeps mark d h))
        | inr e ↦ rw e (invalidate_durably-keeps mark d h)
      ]

-- Anything but an apply that can be undone.
abbrev pub IsIrreversible : {Cfg : Type 0} → Event Cfg → Type 0
IsIrreversible (applies valid env cfg) = ⊥
IsIrreversible _ = Unit

module _ {Cfg : Type 0} (digest : Cfg → String) where
  -- Nothing is offered while the marker is invalidated.
  pub sealed-no_target :
      (d : Disk Cfg) → d.marker.shown ≡ content invalidated → rollback_target digest d ≡ none
  unfolding rollback_target vouched vouches
  sealed-no_target d h = offered d.lastgood.shown refl
    where
      both : (c : Cfg) (live : File Cfg) → vouched digest (content invalidated) c live ≡ none
      both c (content l) = refl
      both c absent = refl
      both c unreadable = refl

      offered : (f : File Cfg) → d.lastgood.shown ≡ f → rollback_target digest d ≡ none
      offered (content c) e =
          rw (e, rollback_target)
            (ap (λ m. vouched digest m c d.live.shown) h ∙ both c d.live.shown)
      offered absent e = rw (e, rollback_target)
      offered unreadable e = rw (e, rollback_target)

  sealed-rollback :
      (install mark : WriteEnv) (d : Disk Cfg)
      → IsSealed d
      → rollback digest install mark d ≡ (some false, d)
  unfolding rollback
  sealed-rollback install mark d h = rw (sealed-no_target d h.0, rollback)

  step-IsSealed :
      (e : Event Cfg) (d : Disk Cfg) → IsIrreversible e → IsSealed d → IsSealed (step digest e d)
  unfolding step
  step-IsSealed (applies valid env cfg) d q h = absurd q
  step-IsSealed (revokes valid mark install cfg) d q h =
      apply_irreversible-keeps valid mark install cfg d h
  step-IsSealed (rolls_back install mark) d q h =
      subst IsSealed (sym (ap (λ r. r.1) (sealed-rollback install mark d h))) h
  step-IsSealed (invalidates env) d q h = invalidate_durably-keeps env d h
  step-IsSealed (cut i j k) d q h = Every-after IsInvalid k d.marker h
  step-IsSealed (edits_live f) d q h = h
  step-IsSealed (edits_lastgood f) d q h = h

  run-IsSealed :
      (es : List (Event Cfg)) (d : Disk Cfg)
      → All IsIrreversible es
      → IsSealed d
      → IsSealed (run digest es d)
  unfolding run
  run-IsSealed [] d q h = h
  run-IsSealed (e ∷ es) d q h = run-IsSealed es (step digest e d) q.1 (step-IsSealed e d q.0 h)

  -- On a file system that supports the fsync of a directory, after a revocation that answered that its
  -- config is installed, `rollback` refuses and changes no file, whatever power cuts, rollbacks,
  -- further revocations and changes from outside came in between, as long as no ordinary apply did.
  pub apply_irreversible-final :
      (valid : Bool) (mark install : WriteEnv) (cfg : Cfg) (d : Disk Cfg) (es : List (Event Cfg))
      (mark' install' : WriteEnv)
      → CanSync mark.sync
      → (apply_irreversible valid mark install cfg d).0 ≡ applied
      → All IsIrreversible es
      → let d' = run digest es (apply_irreversible valid mark install cfg d).1 in
        rollback digest install' mark' d' ≡ (some false, d')
  apply_irreversible-final valid mark install cfg d es mark' install' c h q =
      elim (apply_irreversible-first valid mark install cfg d c) [
        | inl n ↦ absurd (n.1 h)
        | inr s ↦ sealed-rollback install' mark' _ (run-IsSealed es _ q s)
      ]

  -- On a file system that supports the fsync of a directory, whatever became of a revocation, and
  -- whatever a power cut then leaves: if a rollback is still
  -- offered, the revocation has not touched the live config.
  pub apply_irreversible-order :
      (valid : Bool) (mark install : WriteEnv) (cfg : Cfg) (d : Disk Cfg) (i j k : ℕ)
      → CanSync mark.sync
      → let r = apply_irreversible valid mark install cfg d in
        rollback_target digest (step digest (cut i j k) r.1) ≢ none
        → (r.1.live ≡ d.live) × (r.0 ≢ applied)
  apply_irreversible-order valid mark install cfg d i j k c h =
      elim (apply_irreversible-first valid mark install cfg d c) [
        | inl n ↦ n
        | inr s ↦ absurd (h (sealed-no_target _ (step-IsSealed (cut i j k) _ tt s).0))
      ]
