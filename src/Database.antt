-- ===== src/Database.antt =====
-- nodes/store.py, `_SafeConn`: the one connection, and transactions that nest. The lock serializes the
-- threads, so that what runs inside the outermost `with` is one step for the others.
pub mod Atomic
use v2pi.Base.{
  ℕ, ◌+◌, ◌-◌, ◌==◌, Bool, true, false, not, ◌&&◌, ◌||◌, Option, none, some, if◌then◌else◌,
}

-- `shown` is what the connection reads; `began` is what it read at the BEGIN that is open, none where
-- every statement commits itself.
pub record Conn (Db : Type 0) : Type 0 where
  pub shown : Db
  pub began : Option Db
  pub transaction_depth : ℕ
  pub rollback_only : Bool
  pub closed : Bool

-- What the code does with the store: a statement, an exception, one after the other, and a `with`. The
-- flags of a `with` say whether its caller handles an exception of it, and whether a COMMIT goes through.
pub data Program (Db : Type 0) : Type 0 where
  write : (Db → Db) → Program Db
  raise : Program Db
  then_do : Program Db → Program Db → Program Db
  within : Bool → Bool → Program Db → Program Db

module _ {Db : Type 0} where
  -- `execute`: true where it raises.
  unfoldable pub execute : (Db → Db) → Conn Db → Bool × Conn Db
  execute f c = if c.closed then (true, c) else (false, record c { shown = f c.shown })

  -- `BEGIN`: none where one is open.
  begin_if : Bool → Conn Db → Option (Conn Db)
  begin_if outermost c = if not outermost then some c else elim c.began [
    | none ↦ some (record c { began = some c.shown; rollback_only = false })
    | some d ↦ none
  ]

  deeper : Option (Conn Db) → Option (Conn Db)
  deeper none = none
  deeper (some c) = some (record c { transaction_depth = c.transaction_depth + 1 })

  -- `__enter__`: none where it raises.
  unfoldable pub enter : Conn Db → Option (Conn Db)
  unfolding begin_if deeper
  enter c = if c.closed then none else deeper (begin_if (c.transaction_depth == 0) c)

  -- `ROLLBACK`
  rolled_back : Conn Db → Conn Db
  rolled_back c = elim c.began [ none ↦ c | some d ↦ record c { shown = d; began = none } ]

  -- The end of the outermost block; a COMMIT that fails leaves the transaction open.
  finish : Bool → Bool → Bool → Conn Db → Bool × Conn Db
  unfolding rolled_back
  finish rollback_only raised commits c =
      if rollback_only
      then (true, rolled_back c)
      else if commits
      then (raised, record c { began = none })
      else (true, c)

  -- `__exit__`: whether an exception comes out of the block.
  unfoldable pub exit : Bool → Bool → Conn Db → Bool × Conn Db
  unfolding finish
  exit raised commits c =
      let doomed = raised || c.rollback_only in
      let depth = c.transaction_depth - 1 in
      if depth == 0
      then finish doomed raised commits (record c { transaction_depth = 0; rollback_only = false })
      else (raised, record c { transaction_depth = depth; rollback_only = doomed })

  -- `close`: true where it raises.
  unfoldable pub close : Conn Db → Bool × Conn Db
  close c =
      if c.closed
      then (false, c)
      else if not (c.transaction_depth == 0)
      then (true, c)
      else (false, record c { closed = true; began = none })

  -- A program that uses the store; true where an exception comes out of it.
  unfoldable pub run : Program Db → Conn Db → Bool × Conn Db
  unfolding execute enter exit
  run (write f) c = execute f c
  run raise c = (true, c)
  run (then_do p q) c = let r = run p c in let s = run q r.1 in if r.0 then r else s
  run (within handled commits p) c = elim (enter c) [
    | none ↦ (not handled, c)
    | some d ↦ let r = run p d in let e = exit r.0 commits r.1 in (e.0 && not handled, e.1)
  ]
