-- ===== src/Dnsmasq/Sound.antt =====
-- net_control/dnsmasq_supervisor.py: there is never a second child, and the panel knows what the one that
-- runs serves.
use v2pi.Base.{
  ℕ, subst, ◌≡◌, ◌⊎◌, inl, inr, refl, ap, sym, ◌∙◌, arith, Bool, true, false, not, ◌&&◌, String,
  eq_iff, Option, none, some, [], is_some, Bool-cases,
}
use v2pi.Dnsmasq.{
  Child, Dnsmasq, fresh, running, Launch, not_started, exited, lives, interrupted, Env, text_eq,
  stop, dropped, spawn, ended, respawn, put_back, recover, launch, apply,
}

-- What the child serves, if it lives.
abbrev pub Serves : Option Child → Option String → Type 0
Serves none text = Unit
Serves (some c) text = (c.alive ≡ false) ⊎ (c.serves ≡ text)

-- No child lives without a handle, and the text that was applied last, if the panel vouches for one, is
-- what the child serves.
pub record IsSound (s : Dnsmasq) : Type 0 where
  pub sole : s.lost ≡ []
  pub known : (s.last_text ≡ none) ⊎ Serves s.proc s.last_text

pub fresh-IsSound : (conf : Option String) → IsSound (fresh conf)
unfolding fresh
fresh-IsSound conf = record { sole = refl; known = inl refl }

pub stop-IsSound : (stops : Bool) (s : Dnsmasq) → IsSound s → IsSound (stop stops s).1
unfolding stop
stop-IsSound stops s h = elim (Bool-cases (running s && not stops)) [
  | inl e ↦ rw e h
  | inr e ↦ rw e (record { sole = h.sole; known = inr tt })
]

-- Behind a `stop` that worked.
record IsStopped (s : Dnsmasq) : Type 0 where
  no_proc : s.proc ≡ none
  none_lost : s.lost ≡ []

stop-IsStopped :
    (stops : Bool) (s : Dnsmasq)
    → s.lost ≡ []
    → (stop stops s).0 ≡ true
    → IsStopped (stop stops s).1
unfolding stop
stop-IsStopped stops s h e = elim (Bool-cases (running s && not stops)) [
  | inl q ↦ absurd (cc (rw q at e))
  | inr q ↦ rw q (record { no_proc = refl; none_lost = h })
]

stop-stuck :
    (stops : Bool) (s : Dnsmasq)
    → (stop stops s).0 ≡ false
    → ((stop stops s).1 ≡ s) × (stops ≡ false)
unfolding stop
stop-stuck stops s e = elim (Bool-cases (running s && not stops)) [
  | inl q ↦ rw q (refl, ground (arith, q))
  | inr q ↦ absurd (cc (rw q at e))
]

Serves-none : {p : Option Child} (text : Option String) → p ≡ none → Serves p text
Serves-none text e = subst (λ p. Serves p text) (sym e) tt

IsStopped-IsSound : (s : Dnsmasq) → IsStopped s → IsSound s
IsStopped-IsSound s h = record {
  sole = h.none_lost;
  known = inr (Serves-none s.last_text h.no_proc);
}

respawn-IsSound :
    (b : Bool) (pid : Option ℕ) (s : Dnsmasq)
    → IsStopped s
    → s.conf ≡ s.last_text
    → IsSound (respawn b pid s)
unfolding respawn spawn dropped
respawn-IsSound false pid s h e = IsStopped-IsSound s h
respawn-IsSound true none s h e = record { sole = h.none_lost; known = inr tt }
respawn-IsSound true (some pid) s h e = record {
  sole = ground (arith, h.no_proc, h.none_lost);
  known = inr (inr e);
}

-- What the candidate's end needs of the system: the old config can be written back, or the candidate
-- can be stopped.
abbrev pub Recovers : Env → Type 0
Recovers env = (env.restored ≡ true) ⊎ (env.stops_again ≡ true)

recover-IsSound :
    (env : Env) (was : Bool) (previous : Option String) (s : Dnsmasq)
    → Recovers env
    → s.lost ≡ []
    → IsSound (recover env was previous s).1
unfolding recover put_back respawn
recover-IsSound env was previous s v h =
    let r = stop env.stops_again s in
    elim (Bool-cases r.0) [
      | inl e ↦
          let k = stop-IsStopped env.stops_again s h e in
          elim (Bool-cases env.restored) [
            | inl q ↦
                let s' : Dnsmasq = record r.1 { conf = previous; last_text = previous } in
                rw (e, q)
                  (respawn-IsSound (was && is_some previous) env.respawned s'
                    (record { no_proc = k.no_proc; none_lost = k.none_lost }) refl)
            | inr q ↦ rw (e, q) (IsStopped-IsSound r.1 k)
          ]
      | inr e ↦
          let k = stop-stuck env.stops_again s e in
          elim v [
            | inl q ↦
                rw (e, q) (record { sole = ap (λ (d : Dnsmasq). d.lost) k.0 ∙ h; known = inl refl })
            | inr q ↦ absurd (cc (q, k.1))
          ]
    ]

launch-IsSound :
    (env : Env) (was : Bool) (text : String) (l : Launch) (s : Dnsmasq)
    → Recovers env
    → IsStopped s
    → s.conf ≡ some text
    → IsSound (launch env was text l s).1
unfolding launch spawn ended dropped
launch-IsSound env was text l s v h c = by_launch l
  where
    none_lost : (pid : ℕ) → (spawn pid s).lost ≡ []
    none_lost pid = ground (arith, h.no_proc, h.none_lost)

    by_launch : (l : Launch) → IsSound (launch env was text l s).1
    by_launch not_started = recover-IsSound env was s.last_text s v h.none_lost
    by_launch (exited pid) =
        recover-IsSound env was s.last_text (ended (spawn pid s)) v (none_lost pid)
    by_launch (interrupted pid) =
        recover-IsSound env was s.last_text (spawn pid s) v (none_lost pid)
    by_launch (lives pid) = record { sole = none_lost pid; known = inr (inr c) }

text_eq-some : (l : Option String) (text : String) → text_eq l text ≡ true → l ≡ some text
unfolding text_eq
text_eq-some none text e = absurd (cc e)
text_eq-some (some t) text e = ap some ((eq_iff t text).0 e)

-- A new config, on every path of `apply`: there is still no second child, and what the panel believes
-- to be served is served, if the handler of a failed candidate can write the old config back or stop
-- the candidate. Where it answers that it is applied, the child lives and serves this very text.
pub apply-IsSound :
    (text : String) (env : Env) (s : Dnsmasq)
    → Recovers env
    → IsSound s
    → let r = apply text env s in
      IsSound r.1
      × ((r.0 ≡ false)
          ⊎ ((running r.1 ≡ true) × Serves r.1.proc (some text) × (r.1.last_text ≡ some text)))
unfolding apply launch recover spawn running
apply-IsSound text env s v h = elim (Bool-cases (text_eq s.last_text text && running s)) [
  | inl e ↦
      rw e
        (h, inr (ground (arith, e), same s.proc s.last_text h.known (ground (arith, e)), known e))
  | inr e ↦ elim (Bool-cases (env.written && env.tested)) [
    | inr q ↦ rw (e, q) (h, inl refl)
    | inl q ↦ elim (Bool-cases (stop env.stops s).0) [
      | inr k ↦ rw (e, q, k) (h, inl refl)
      | inl k ↦
          let t = stop-IsStopped env.stops s h.sole k in
          let s' : Dnsmasq = record (stop env.stops s).1 { conf = some text } in
          elim (Bool-cases env.replaced) [
            | inr m ↦ rw (e, q, k, m) (IsStopped-IsSound _ t, inl refl)
            | inl m ↦
                rw (e, q, k, m)
                  (
                    launch-IsSound env (running s) text env.launch s' v
                        (record { no_proc = t.no_proc; none_lost = t.none_lost }) refl,
                    launched env.launch s' refl,
                  )
          ]
    ]
  ]
]
  where
    known : (text_eq s.last_text text && running s) ≡ true → s.last_text ≡ some text
    known e = text_eq-some s.last_text text (ground (arith, e))

    same :
        (p : Option Child) (l : Option String)
        → (l ≡ none) ⊎ Serves p l
        → text_eq l text ≡ true
        → Serves p (some text)
    same p l (inl q) e = absurd (cc (text_eq-some l text e, q))
    same p l (inr z) e = subst (λ m. Serves p m) (text_eq-some l text e) z

    launched :
        (l : Launch) (s' : Dnsmasq)
        → s'.conf ≡ some text
        → let r = launch env (running s) text l s' in
          (r.0 ≡ false)
          ⊎ ((running r.1 ≡ true) × Serves r.1.proc (some text) × (r.1.last_text ≡ some text))
    launched not_started s' c = inl refl
    launched (exited pid) s' c = inl refl
    launched (interrupted pid) s' c = inl refl
    launched (lives pid) s' c = inr (refl, inr c, refl)
