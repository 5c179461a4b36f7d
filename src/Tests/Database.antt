-- ===== src/Tests/Database.antt =====
-- nodes/store.py, `_SafeConn`, on a database that is a number: an inner block fails, and its caller goes on.
use v2pi.Base.{ℕ, ◌+◌, ◌≡◌, ◌⊎◌, refl, true, false, none}
use v2pi.Database.{Conn, Program, write, raise, then_do, within, run}
use v2pi.Database.Atomic.{IsIdle, whole, run-IsAtomic}

abbrev idle : Conn ℕ
idle = record {
  shown = 5;
  began = none;
  transaction_depth = 0;
  rollback_only = false;
  closed = false;
}

abbrev program : Program ℕ
program =
    then_do (write (λ n. n + 1))
      (then_do (within true true (then_do (write (λ n. n + 10)) raise)) (write (λ n. n + 100)))

run-IsAtomic_example :
    let r = run (within false true program) idle in
    IsIdle r.1
    × (((false ≡ true) × (r.0 ≡ false) × (r.1.shown ≡ whole program 5))
        ⊎ ((false ≡ false) × (r.0 ≡ true) × (r.1.shown ≡ 5)))
run-IsAtomic_example =
    run-IsAtomic program idle (record { began = refl; depth = refl; closed = refl })
