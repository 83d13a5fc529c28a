-- ===== src/Store/Sql.antt =====
-- The kinds of statement that the store sends: a row, some rows, or a change with its row count.
use mathlib.Core.Path.{subst}
use jeffrey_s_agenda_tool.Prelude.{ℕ, zero, suc, Option, none, some, List, ◌≡◌, arith}
use jeffrey_s_agenda_tool.Domain.{Time}
use jeffrey_s_agenda_tool.Database.{Err, no_rows, Result, ok, err, Db, Statement}
use jeffrey_s_agenda_tool.Action.{Action, pure, fail}
use jeffrey_s_agenda_tool.Action.Keeps.{Keeps, Safe, Keeps-fail, Keeps-pure, keeps_rules}

-- Scan of the row, if there is one.
unfoldable pub scan : {A : Type 0} → Option A → Db → Result (A × Db)
scan none db = err no_rows
scan (some a) db = ok (a, db)

-- A SELECT that is read with QueryRow and Scan.
unfoldable pub select_row : {A : Type 0} → (Db → Option A) → Statement A
unfolding scan
select_row row now id db = scan (row db) db

-- A SELECT that is read with Query and a loop over the rows.
unfoldable pub select_rows : {A : Type 0} → (Db → List A) → Statement (List A)
select_rows rows now id db = ok (rows db, db)

-- An UPDATE or a DELETE, with the number of the rows that it selected.
unfoldable pub exec : (Db → ℕ) → (Time → Db → Db) → Statement ℕ
exec count change now id db = ok (count db, change now db)

-- `if errors.Is(err, pgx.ErrNoRows) { return e }`
unfoldable pub or_missing : {A : Type 0} → Err → Err → Action A
or_missing e no_rows = fail e
or_missing e other = fail other

-- `if cmdTag.RowsAffected() == 0 { return e }`
unfoldable pub require_rows : Err → ℕ → Action (Unit {0})
require_rows e zero = fail e
require_rows e (suc n) = pure tt

pub scan_same :
    {A : Type 0} (r : Option A) (db db' : Db) (a : A) → scan r db ≡ ok (a, db') → db ≡ db'
unfolding scan
scan_same none db db' a e = cc
scan_same (some x) db db' a e = ground arith

-- Two successful results are equal only if they leave the same database.
pub same_db :
    {A : Type 0} (a b : A) (db db' : Db)
    → ◌≡◌ {A = Result (A × Db)} (ok (a, db)) (ok (b, db'))
    → db ≡ db'
same_db a b db db' e = ground arith

module _ {A : Type 0} {P : Db → Type 0} where
  pub Safe-select_row : (row : Db → Option A) → Safe P (select_row row)
  unfolding select_row
  Safe-select_row row = record {
    at = λ now id db a db' h e. subst P (scan_same (row db) db db' a e) h;
  }

  pub Safe-select_rows : (rows : Db → List A) → Safe P (select_rows rows)
  unfolding select_rows
  Safe-select_rows rows = record {
    at = λ now id db a db' h e. subst P (same_db (rows db) a db db' e) h;
  }

pub Safe-exec :
    {P : Db → Type 0} (count : Db → ℕ) (change : Time → Db → Db)
    → ((now : Time) (db : Db) → P db → P (change now db))
    → Safe P (exec count change)
unfolding exec
Safe-exec {P} count change keeps = record {
  at = λ now id db a db' h e. subst P (same_db (count db) a (change now db) db' e) (keeps now db h);
}

module _ {P : Db → Type 0} where
  pub Keeps-or_missing : {A : Type 0} (missing e : Err) → Keeps P (or_missing {A = A} missing e)
  unfolding or_missing
  Keeps-or_missing missing no_rows = Keeps-fail _
  Keeps-or_missing missing other = Keeps-fail _

  pub Keeps-require_rows : (e : Err) (n : ℕ) → Keeps P (require_rows e n)
  unfolding require_rows
  Keeps-require_rows e zero = Keeps-fail e
  Keeps-require_rows e (suc n) = Keeps-pure tt

pub ruleset store_rules =
    (keeps_rules, Safe-select_row, Safe-select_rows, Keeps-or_missing, Keeps-require_rows)
