-- ===== src/XrayConfig/Manager/Pairing.antt =====
-- xray_config/validate.py: the config that `rollback` offers is the one that the live config was
-- applied over.
use mathlib.Core.List.{Memᴰ}
use v2pi.Base.{
  Bool, true, false, String, eq_iff, some, List, [], ◌∷◌, ◌++◌, ◌≡◌, refl, sym, subst, ◌∙◌, ◌⊎◌,
  inl, inr, arith, All, Bool-cases, All-of, Option-cases, All-append_left, All-append_right,
}
use v2pi.XrayConfig.Manager.{
  File, absent, unreadable, content, Slot, WriteEnv, ApplyEnv, Marker, invalidated, junk, pair,
  Disk, unlinked, missing, failed, Unlink, unlink, write_atomic, put_live, apply, apply_to,
  apply_over, pair_and_install, invalidate_provenance, invalidate_durably, apply_irreversible,
  rollback, rollback_target, promote, vouched, vouches,
}
use v2pi.XrayConfig.Manager.Run.{
  Event, applies, revokes, rolls_back, invalidates, cut, edits_live, edits_lastgood, Every,
  Every-after, Every-renamed, Written-cases, step, run,
}

module _ {Cfg : Type 0} (digest : Cfg → String) where
  -- The pairs of a config and the one that an apply put in its place.
  pub pairs_of : Event Cfg → File Cfg → List (Cfg × Cfg)
  pairs_of (applies true env cfg) (content previous) = (previous, cfg) ∷ []
  pairs_of _ _ = []

  pub pairs : List (Event Cfg) → Disk Cfg → List (Cfg × Cfg)
  pairs [] d = []
  pairs (e ∷ es) d = pairs_of e d.live.shown ++ pairs es (step digest e d)

-- The marker names nothing, or the digests of two configs of which `R` says that the second replaced
-- the first, or of one config twice.
abbrev IsExplained : {Cfg : Type 0} → (Cfg → String) → (Cfg → Cfg → Type 0) → File Marker → Type 0
IsExplained {Cfg} digest R (content (pair a b)) =
    (p : Cfg) × ((n : Cfg) × ((a ≡ digest p) × (b ≡ digest n) × (R p n ⊎ (p ≡ n))))
IsExplained digest R _ = Unit

abbrev pub NamesNothing : File Marker → Type 0
NamesNothing (content (pair a b)) = ⊥
NamesNothing _ = Unit

module _ {Cfg : Type 0} (digest : Cfg → String) (R : Cfg → Cfg → Type 0) where
  Every-Explained : (s : Slot Marker) → Every NamesNothing s → Every (IsExplained digest R) s
  Every-Explained s h = (one s.shown h.0, all s.after_cut h.1)
    where
      one : (f : File Marker) → NamesNothing f → IsExplained digest R f
      one (content invalidated) n = tt
      one (content junk) n = tt
      one (content (pair a b)) n = absurd n
      one absent n = tt
      one unreadable n = tt

      all : (fs : List (File Marker)) → All NamesNothing fs → All (IsExplained digest R) fs
      all [] n = tt
      all (f ∷ fs) n = (one f n.0, all fs n.1)

  put_live-marker :
      (env : WriteEnv) (cfg : Cfg) (d : Disk Cfg) → (put_live env cfg d).1.marker ≡ d.marker
  unfolding put_live write_atomic
  put_live-marker env cfg d = ground arith

  put_live-Explained :
      (env : WriteEnv) (cfg : Cfg) (d : Disk Cfg)
      → Every (IsExplained digest R) d.marker
      → Every (IsExplained digest R) (put_live env cfg d).1.marker
  put_live-Explained env cfg d h =
      subst (Every (IsExplained digest R)) (sym (put_live-marker env cfg d)) h

  invalidate_durably-Explained :
      (env : WriteEnv) (d : Disk Cfg)
      → Every (IsExplained digest R) d.marker
      → Every (IsExplained digest R) (invalidate_durably env d).1.marker
  unfolding invalidate_durably
  invalidate_durably-Explained env d h =
      elim (Written-cases (write_atomic env invalidated d.marker)) [
        | inl e ↦ rw (e, invalidate_durably) h
        | inr (durable, (s, e)) ↦
            rw (e, invalidate_durably)
              (Every-renamed (IsExplained digest R) env invalidated d.marker e tt h)
      ]

  unlink-Explained :
      (u : Unlink) (s : Slot Marker)
      → Every (IsExplained digest R) s
      → Every (IsExplained digest R) (unlink u s)
  unfolding unlink
  unlink-Explained unlinked s h = (tt, (tt, h.1))
  unlink-Explained missing s h = h
  unlink-Explained failed s h = h

  apply_irreversible-Explained :
      (valid : Bool) (mark install : WriteEnv) (cfg : Cfg) (d : Disk Cfg)
      → Every (IsExplained digest R) d.marker
      → Every (IsExplained digest R) (apply_irreversible valid mark install cfg d).1.marker
  unfolding apply_irreversible
  apply_irreversible-Explained false mark install cfg d h = h
  apply_irreversible-Explained true mark install cfg d h =
      elim (Bool-cases (invalidate_durably mark d).0) [
        | inl e ↦ rw e (put_live-Explained install cfg _ (invalidate_durably-Explained mark d h))
        | inr e ↦ rw e (invalidate_durably-Explained mark d h)
      ]

  pair_and_install-Explained :
      (env : ApplyEnv) (previous cfg : Cfg) (d : Disk Cfg)
      → R previous cfg
      → Every (IsExplained digest R) d.marker
      → Every (IsExplained digest R) (pair_and_install digest env previous cfg d).1.marker
  unfolding pair_and_install
  pair_and_install-Explained env previous cfg d r h =
      let m = pair (digest previous) (digest cfg) in
      elim (Written-cases (write_atomic env.mark m d.marker)) [
        | inl e ↦ rw (e, pair_and_install) h
        | inr (durable, (s, e)) ↦
            rw (e, pair_and_install)
              (put_live-Explained env.install cfg (record d { marker = s })
                (Every-renamed (IsExplained digest R) env.mark m d.marker e
                  (previous, (cfg, (refl, refl, inl r))) h))
      ]

  apply_over-Explained :
      (env : ApplyEnv) (previous cfg : Cfg) (d : Disk Cfg)
      → R previous cfg
      → Every (IsExplained digest R) d.marker
      → Every (IsExplained digest R) (apply_over digest env previous cfg d).1.marker
  unfolding apply_over
  apply_over-Explained env previous cfg d r h =
      elim (Written-cases (write_atomic env.snapshot previous d.lastgood)) [
        | inl e ↦ rw (e, apply_over) h
        | inr (durable, (s, e)) ↦
            rw (e, apply_over)
              (pair_and_install-Explained env previous cfg (record d { lastgood = s }) r h)
      ]

  promote-Explained :
      (install mark : WriteEnv) (c : Cfg) (d : Disk Cfg)
      → Every (IsExplained digest R) d.marker
      → Every (IsExplained digest R) (promote digest install mark c d).1.marker
  unfolding promote
  promote-Explained install mark c d h =
      let m = pair (digest c) (digest c) in
      elim (Written-cases (write_atomic install c d.live)) [
        | inl e ↦ rw (e, promote) h
        | inr (durable, (s, e)) ↦ elim (Written-cases (write_atomic mark m d.marker)) [
          | inl e' ↦ rw (e, promote) (rw (e', promote) h)
          | inr (durable', (s', e')) ↦
              rw (e, promote)
                (rw (e', promote)
                  (Every-renamed (IsExplained digest R) mark m d.marker e'
                    (c, (c, (refl, refl, inr refl))) h))
        ]
      ]

  apply-Explained :
      (valid : Bool) (env : ApplyEnv) (cfg : Cfg) (d : Disk Cfg)
      → All (λ (q : Cfg × Cfg). R q.0 q.1) (pairs_of digest (applies valid env cfg) d.live.shown)
      → Every (IsExplained digest R) d.marker
      → Every (IsExplained digest R) (apply digest valid env cfg d).1.marker
  unfolding apply apply_to pairs_of invalidate_provenance
  apply-Explained false env cfg d r h = h
  apply-Explained true env cfg d r h = by_file d.live.shown r
    where
      by_file :
          (f : File Cfg)
          → All (λ (q : Cfg × Cfg). R q.0 q.1) (pairs_of digest (applies true env cfg) f)
          → Every (IsExplained digest R) (apply_to digest env f cfg d).1.marker
      by_file (content previous) r = apply_over-Explained env previous cfg d r.0 h
      by_file absent r = put_live-Explained env.install cfg _ (unlink-Explained env.drop d.marker h)
      by_file unreadable r =
          put_live-Explained env.install cfg _ (unlink-Explained env.drop d.marker h)

  rollback-Explained :
      (install mark : WriteEnv) (d : Disk Cfg)
      → Every (IsExplained digest R) d.marker
      → Every (IsExplained digest R) (rollback digest install mark d).1.marker
  unfolding rollback
  rollback-Explained install mark d h = elim (Option-cases (rollback_target digest d)) [
    | inl e ↦ rw (e, rollback) h
    | inr (c, e) ↦ rw (e, rollback) (promote-Explained install mark c d h)
  ]

  step-Explained :
      (e : Event Cfg) (d : Disk Cfg)
      → All (λ (q : Cfg × Cfg). R q.0 q.1) (pairs_of digest e d.live.shown)
      → Every (IsExplained digest R) d.marker
      → Every (IsExplained digest R) (step digest e d).marker
  unfolding step
  step-Explained (applies valid env cfg) d r h = apply-Explained valid env cfg d r h
  step-Explained (revokes valid mark install cfg) d r h =
      apply_irreversible-Explained valid mark install cfg d h
  step-Explained (rolls_back install mark) d r h = rollback-Explained install mark d h
  step-Explained (invalidates env) d r h = invalidate_durably-Explained env d h
  step-Explained (cut i j k) d r h = Every-after (IsExplained digest R) k d.marker h
  step-Explained (edits_live f) d r h = h
  step-Explained (edits_lastgood f) d r h = h

  run-Explained :
      (es : List (Event Cfg)) (d : Disk Cfg)
      → All (λ (q : Cfg × Cfg). R q.0 q.1) (pairs digest es d)
      → Every (IsExplained digest R) d.marker
      → Every (IsExplained digest R) (run digest es d).marker
  unfolding run pairs
  run-Explained [] d r h = h
  run-Explained (e ∷ es) d r h =
      run-Explained es (step digest e d) (All-append_right _ (pairs_of digest e d.live.shown) _ r)
        (step-Explained e d (All-append_left _ (pairs_of digest e d.live.shown) _ r) h)

  module _ (inj : (a b : Cfg) → digest a ≡ digest b → a ≡ b) where
    vouches-Explained :
        (m : Marker) (c n : Cfg)
        → IsExplained digest R (content m)
        → vouches digest m c n ≡ true
        → R c n ⊎ (c ≡ n)
    unfolding vouches
    vouches-Explained invalidated c n h t = absurd (cc t)
    vouches-Explained junk c n h t = absurd (cc t)
    vouches-Explained (pair a b) c n (p, (q, (ea, eb, r))) t =
        let ec : a ≡ digest c = ground (arith, eq_iff a (digest c)) in
        let en : b ≡ digest n = ground (arith, eq_iff b (digest n)) in
        let pc = inj p c (sym ea ∙ ec) in
        let qn = inj q n (sym eb ∙ en) in
        subst (λ x. R x n ⊎ (x ≡ n)) pc (subst (λ y. R p y ⊎ (p ≡ y)) qn r)

    vouched-Explained :
        (f : File Marker) (c' c : Cfg) (l : File Cfg)
        → IsExplained digest R f
        → vouched digest f c' l ≡ some c
        → (n : Cfg) × ((l ≡ content n) × (R c n ⊎ (c ≡ n)))
    unfolding vouched
    vouched-Explained (content m) c' c (content n) h t = elim (Bool-cases (vouches digest m c' n)) [
      | inl e ↦
          let same : c' ≡ c = ground arith in
          (n, (refl, subst (λ x. R x n ⊎ (x ≡ n)) same (vouches-Explained m c' n h e)))
      | inr e ↦ absurd (cc (rw e at t))
    ]
    vouched-Explained (content m) c' c absent h t = absurd (cc t)
    vouched-Explained (content m) c' c unreadable h t = absurd (cc t)
    vouched-Explained absent c' c l h t = absurd (cc t)
    vouched-Explained unreadable c' c l h t = absurd (cc t)

    -- What is offered is what the marker vouches for.
    target-Explained :
        (d : Disk Cfg) (c : Cfg)
        → Every (IsExplained digest R) d.marker
        → rollback_target digest d ≡ some c
        → (n : Cfg) × ((d.live.shown ≡ content n) × (R c n ⊎ (c ≡ n)))
    unfolding rollback_target
    target-Explained d c h t = by_file d.lastgood.shown refl
      where
        by_file :
            (f : File Cfg)
            → d.lastgood.shown ≡ f
            → (n : Cfg) × ((d.live.shown ≡ content n) × (R c n ⊎ (c ≡ n)))
        by_file (content c') e =
            vouched-Explained d.marker.shown c' c d.live.shown h.0 (rw (e, rollback_target) at t)
        by_file absent e = absurd (cc (t, e))
        by_file unreadable e = absurd (cc (t, e))

-- Whatever sequence of applies, revocations, rollbacks, power cuts and changes from outside: if a
-- rollback is offered afterwards, some apply of that sequence replaced the config that it would
-- install by the very one that is live, or the two are the same. The marker names no digests at
-- first, and no two configs have one digest.
pub run-rollback_target :
    {Cfg : Type 0} (digest : Cfg → String) (es : List (Event Cfg)) (d : Disk Cfg) (c : Cfg)
    → ((a b : Cfg) → digest a ≡ digest b → a ≡ b)
    → Every NamesNothing d.marker
    → rollback_target digest (run digest es d) ≡ some c
    → (n : Cfg) × (((run digest es d).live.shown ≡ content n)
        × (Memᴰ (c, n) (pairs digest es d) ⊎ (c ≡ n)))
run-rollback_target {Cfg} digest es d c inj start t =
    let R : Cfg → Cfg → Type 0 = λ p n. Memᴰ (p, n) (pairs digest es d) in
    target-Explained digest R inj (run digest es d) c
      (run-Explained digest R es d (All-of _ (pairs digest es d) (λ q m. m))
        (Every-Explained digest R d.marker start))
      t
