-- ===== src/Health/Failover/Run.antt =====
-- health/failover.py, `run`: what a switch rests on, and what it leaves for the next evaluation.
use mathlib.Core.List.{Memᴰ}
use v2pi.Base.{
  ℕ, ◌≡◌, ◌≢◌, ◌+◌, refl, Bool, true, false, ltb, Option, none, some, List, [], ◌∷◌, Bool-cases,
  inl, inr, String, ◌&&◌, ◌==◌, mem-take, subst,
}
use v2pi.Settings.{flag}
use v2pi.Node.{Node}
use v2pi.Health.{NodeHealth}
use v2pi.Health.Table.{RealCheck}
use v2pi.Health.Selection.{ranked_nodes}
use v2pi.Health.Selection.Ranking.{IsEligible, ranked_nodes-mem, eligible-mem}
use v2pi.Health.Failover.{
  Config, Store, Env, stayed, switched, raised, Attempt, ended, exhausted, Preflight, could_not_run,
  answered, promote, on_apply, on_result, on_second_look, on_preflight, on_first_look, still_active,
  note_check, note_switch, candidates, evaluate, run, read_config, decide, conclude, finish,
  maybe_report_all_down, standby_query, max_preflights,
}

-- How a node came to be the active one: it answered a preflight, its result was written while the
-- node that was found failing was still the active one, and it was applied to that store.
pub record Promotion (env : Env) (c : Config) (now : ℕ) (n : Node) (after : Store) : Type 0 where
  pub before : Store
  pub real_ms : Option ℕ
  pub egress : Option String
  pub egress6 : Option String
  pub checked : Store
  pub applied : Store
  pub answered_ok : env.real_through n before ≡ (answered true real_ms egress egress6, checked)
  pub unmoved : still_active c.active_id checked ≡ some true
  pub applied_ok :
      env.apply_fn n (
        note_check n
          (record {
            real_ok = true;
            real_ms = real_ms;
            egress_ip = egress;
            egress_ip6 = egress6;
            checked_at = now;
          })
          checked)
      ≡ (true, applied)
  pub noted : after ≡ note_switch c.active_id now applied

-- What a loop over the candidates has to show for a switch.
abbrev pub Shown : Env → Config → ℕ → List Node → Attempt × Store → Type 0
Shown env c now l (ended (switched i), after) =
    (n : Node) × Memᴰ n l × (n.id ≡ i) × Promotion env c now n after
Shown env c now l _ = Unit

Shown-later :
    (env : Env) (c : Config) (now : ℕ) (x : Node) (l : List Node) (r : Attempt × Store)
    → Shown env c now l r
    → Shown env c now (x ∷ l) r
Shown-later env c now x l (ended stayed, s) h = tt
Shown-later env c now x l (ended (switched i), s) (n, m, e, p) = (n, Memᴰ.tail m, e, p)
Shown-later env c now x l (ended raised, s) h = tt
Shown-later env c now x l (exhausted k, s) h = tt

-- Each step shows what it has to, if the rest of the loop does.
module _ (env : Env) (c : Config) (now : ℕ) (x : Node) (l : List Node) (errors : ℕ)
    (next : ℕ → Store → Attempt × Store)
    (later : (k : ℕ) (s : Store) → Shown env c now (x ∷ l) (next k s)) where
  on_preflight-Shown :
      (before : Store) (r : Preflight × Store)
      → env.real_through x before ≡ r
      → Shown env c now (x ∷ l) (on_preflight env c now x errors next r)
  unfolding on_preflight
  on_preflight-Shown before (could_not_run, st) e = later (errors + 1) st
  on_preflight-Shown before (answered false real_ms egress egress6, st) e =
      look (still_active c.active_id st)
    where
      look :
          (o : Option Bool)
          → Shown env c now (x ∷ l) (
              on_second_look env c now x errors next
                (record {
                  real_ok = false;
                  real_ms = real_ms;
                  egress_ip = egress;
                  egress_ip6 = egress6;
                  checked_at = now;
                })
                st
                o)
      look none = unfold on_second_look in tt
      look (some false) = unfold on_second_look in tt
      look (some true) = unfold on_second_look on_result in later errors _
  on_preflight-Shown before (answered true real_ms egress egress6, st) e =
      look (still_active c.active_id st) refl
    where
      check : RealCheck
      check = record {
        real_ok = true;
        real_ms = real_ms;
        egress_ip = egress;
        egress_ip6 = egress6;
        checked_at = now;
      }

      applied :
          still_active c.active_id st ≡ some true
          → (r : Bool × Store) → env.apply_fn x (note_check x check st) ≡ r
          → Shown env c now (x ∷ l) (on_apply env c now x errors next r)
      applied q (false, s) a = unfold on_apply in later errors s
      applied q (true, s) a =
          unfold on_apply in
          (
            x,
            Memᴰ.head refl,
            refl,
            record {
              before = before;
              real_ms = real_ms;
              egress = egress;
              egress6 = egress6;
              checked = st;
              applied = s;
              answered_ok = e;
              unmoved = q;
              applied_ok = a;
              noted = refl;
            },
          )

      look :
          (o : Option Bool)
          → still_active c.active_id st ≡ o
          → Shown env c now (x ∷ l) (on_second_look env c now x errors next check st o)
      look none q = unfold on_second_look in tt
      look (some false) q = unfold on_second_look in tt
      look (some true) q = unfold on_second_look on_result in applied q _ refl

  on_first_look-Shown :
      (st : Store) (o : Option Bool)
      → Shown env c now (x ∷ l) (on_first_look env c now x errors next st o)
  unfolding on_first_look
  on_first_look-Shown st none = tt
  on_first_look-Shown st (some false) = tt
  on_first_look-Shown st (some true) = on_preflight-Shown st (env.real_through x st) refl

pub promote-Shown :
    (env : Env) (c : Config) (now : ℕ) (l : List Node) (errors : ℕ) (st : Store)
    → Shown env c now l (promote env c now l errors st)
unfolding promote
promote-Shown env c now [] errors st = tt
promote-Shown env c now (x ∷ l) errors st =
    on_first_look-Shown env c now x l errors (promote env c now l)
      (λ k s. Shown-later env c now x l _ (promote-Shown env c now l k s)) st
      (still_active c.active_id st)

finish-ne-switched :
    (st after : Store) (o : Option Store) (i : Option ℕ) → finish st o ≢ (switched i, after)
finish-ne-switched st after none i h = cc
finish-ne-switched st after (some s) i h = cc

conclude-switched :
    (c : Config) (health : List NodeHealth) (nodes : List Node) (now tried : ℕ)
    (r : Attempt × Store) (i : Option ℕ) (after : Store)
    → conclude c health nodes now tried r ≡ (switched i, after)
    → r ≡ (ended (switched i), after)
unfolding conclude
conclude-switched c health nodes now tried (ended o, s) i after h = cc
conclude-switched c health nodes now tried (exhausted errors, s) i after h =
    elim (Bool-cases (ltb 0 errors && errors == tried)) [
      | inl e ↦ cc (rw e at h)
      | inr e ↦ absurd (
          finish-ne-switched s after (maybe_report_all_down c health nodes now true s) i
            (rw e at h))
    ]

candidates-mem :
    (c : Config) (health : List NodeHealth) (nodes : List Node) (now : ℕ) (n : Node)
    → Memᴰ n (candidates c health nodes now)
    → Memᴰ n nodes × IsEligible (standby_query c health now (some c.hysteresis)) n
unfolding candidates
candidates-mem c health nodes now n m =
    let q = standby_query c health now (some c.hysteresis) in
    (eligible-mem q n nodes).0
      (ranked_nodes-mem q nodes n (mem-take max_preflights (ranked_nodes q nodes) m))

evaluate-switched :
    (env : Env) (c : Config) (now : ℕ) (st after : Store) (i : Option ℕ)
    → evaluate env c now st ≡ (switched i, after)
    → (decide c st.health st.nodes now ≢ none)
      × (promote env c now (candidates c st.health st.nodes now) 0 st ≡ (ended (switched i), after))
unfolding evaluate
evaluate-switched env c now st after i h = go (decide c st.health st.nodes now) refl
  where
    go :
        (o : Option ℕ)
        → decide c st.health st.nodes now ≡ o
        → (o ≢ none)
          × (promote env c now (candidates c st.health st.nodes now) 0 st
              ≡ (ended (switched i), after))
    go none e = absurd (finish-ne-switched st after _ i (rw (e, evaluate) at h))
    go (some k) e =
        (λ q. cc, conclude-switched c st.health st.nodes now _ _ i after (rw (e, evaluate) at h))

-- The reads that `run` has made where it switches.
run_reads :
    (env : Env) (now : ℕ) (st after : Store) (i : Option ℕ)
    → run env now st ≡ (switched i, after)
    → (c : Config) × (read_config st.settings now ≡ some c)
      × (evaluate env c now st ≡ (switched i, after))
unfolding run
run_reads env now st after i h = go (flag true st.settings.failover_enabled) refl
  where
    read :
        flag true st.settings.failover_enabled ≡ some true
        → (o : Option Config) → read_config st.settings now ≡ o
        → (c : Config) × (read_config st.settings now ≡ some c)
          × (evaluate env c now st ≡ (switched i, after))
    read f none e = cc (rw (f, e, run) at h)
    read f (some c) e = (c, e, rw (f, e, run) at h)

    go :
        (o : Option Bool)
        → flag true st.settings.failover_enabled ≡ o
        → (c : Config) × (read_config st.settings now ≡ some c)
          × (evaluate env c now st ≡ (switched i, after))
    go none e = cc (rw (e, run) at h)
    go (some false) e = cc (rw (e, run) at h)
    go (some true) e = read e (read_config st.settings now) refl

-- Where `run` switches, a switch was due; the new node is a candidate of the pool that answered a
-- preflight; it was applied to a store in which the failing node was still the active one; and the
-- switch is noted with its time and the node that was fled.
pub run-switched :
    (env : Env) (now : ℕ) (st after : Store) (i : Option ℕ)
    → run env now st ≡ (switched i, after)
    → (c : Config) × (n : Node) × (read_config st.settings now ≡ some c)
      × (decide c st.health st.nodes now ≢ none)
      × (n.id ≡ i)
      × Memᴰ n st.nodes
      × IsEligible (standby_query c st.health now (some c.hysteresis)) n
      × Promotion env c now n after
run-switched env now st after i h =
    let (c, read, ev) = run_reads env now st after i h in
    let (due, pr) = evaluate-switched env c now st after i ev in
    let (n, m, e, p) =
      subst (Shown env c now (candidates c st.health st.nodes now)) pr
        (promote-Shown env c now (candidates c st.health st.nodes now) 0 st) in
    let (pooled, good) = candidates-mem c st.health st.nodes now n m in
    (c, n, read, due, e, pooled, good, p)
