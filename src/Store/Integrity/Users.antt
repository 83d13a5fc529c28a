-- ===== src/Store/Integrity/Users.antt =====
-- internal/store/user/user.go: the invariant of the database over its statements.
use mathlib.Core.Path.{subst}
use jeffrey_s_agenda_tool.Prelude.{
  Text, text_eq, ◌≡◌, refl, Option, none, some, any, find, any_of_find-none, Bool-cases, inl, inr,
}
use jeffrey_s_agenda_tool.Domain.{Uuid, Time, User}
use jeffrey_s_agenda_tool.Database.{ok, Db, user_has}
use jeffrey_s_agenda_tool.Database.Cascade.{delete_user_row}
use jeffrey_s_agenda_tool.Database.Integrity.{IsConsistent}
use jeffrey_s_agenda_tool.Database.Integrity.Inserts.{insert_user-IsConsistent}
use jeffrey_s_agenda_tool.Database.Integrity.Updates.{update_users-IsConsistent}
use jeffrey_s_agenda_tool.Database.Integrity.Deletes.{delete_user_row-IsConsistent}
use jeffrey_s_agenda_tool.Action.{Env}
use jeffrey_s_agenda_tool.Action.Keeps.{Keeps, Safe, keeps_rules}
use jeffrey_s_agenda_tool.Store.Sql.{exec, same_db, Safe-exec, store_rules}
use jeffrey_s_agenda_tool.Store.User.{
  new_user, rename, upsert_at, upsert_user, create_user, get_user_by_id, delete_user,
}

upsert_at_keeps :
    (o : Option User) (email name : Text) (now : Time) (id : Uuid) (db : Db) (u : User) (db' : Db)
    → find (λ v. text_eq v.email email) db.users ≡ o
    → IsConsistent db
    → upsert_at o email name now id db ≡ ok (u, db')
    → IsConsistent db'
unfolding upsert_at
upsert_at_keeps (some v) email name now id db u db' found c e =
    subst IsConsistent (same_db _ _ _ _ e)
      (update_users-IsConsistent _ (rename name) db (λ v. refl) (λ v. refl) c)
upsert_at_keeps none email name now id db u db' found c e =
    elim (Bool-cases (any (user_has id) db.users)) [
      | inl taken ↦ cc taken
      | inr free ↦ subst IsConsistent (same_db _ _ _ _ (rw free at e)) (
          insert_user-IsConsistent (new_user now id email name) db free
            (any_of_find-none (λ v. text_eq v.email email) db.users found) c)
    ]

pub upsert_user-Safe : (email name : Text) → Safe IsConsistent (upsert_user email name)
unfolding upsert_user
upsert_user-Safe email name = record {
  at = λ now id db u db' c e. upsert_at_keeps _ email name now id db u db' refl c e;
}

pub create_user-Keeps :
    (env : Env) (email name : Text) → Keeps IsConsistent (create_user env email name)
unfolding create_user
create_user-Keeps env email name = search (keeps_rules, upsert_user-Safe)

pub get_user_by_id-Keeps : (env : Env) (k : Uuid) → Keeps IsConsistent (get_user_by_id env k)
unfolding get_user_by_id
get_user_by_id-Keeps env k = search store_rules

delete_user_row-Safe :
    (k : Uuid) (count : _) → Safe IsConsistent (exec count (λ now. delete_user_row k))
delete_user_row-Safe k count = Safe-exec count _ (λ now db c. delete_user_row-IsConsistent k db c)

pub delete_user-Keeps : (env : Env) (k : Uuid) → Keeps IsConsistent (delete_user env k)
unfolding delete_user
delete_user-Keeps env k = search (store_rules, delete_user_row-Safe)
