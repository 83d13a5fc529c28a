-- ===== src/Store/User.antt =====
-- internal/store/user/user.go
pub mod Erase
use jeffrey_s_agenda_tool.Prelude.{
  Text, text_eq, Option, none, some, [], ◌∷◌, ◌++◌, any, find, keep, length, update_where,
  if◌then◌else◌,
}
use jeffrey_s_agenda_tool.Domain.{Uuid, Time, User}
use jeffrey_s_agenda_tool.Database.{
  ok, err, unique_violation, user_not_found, nothing_deleted, Statement, user_has,
}
use jeffrey_s_agenda_tool.Database.Cascade.{delete_user_row}
use jeffrey_s_agenda_tool.Action.{Env, Action, pure, attempt, query, ◌>>=◌}
use jeffrey_s_agenda_tool.Store.Sql.{select_row, exec, or_missing, require_rows}

abbrev pub new_user : Time → Uuid → Text → Text → User
new_user now id email name = record {
  id = id;
  created_at = now;
  updated_at = now;
  email = email;
  name = some name;
}

abbrev pub rename : Text → User → User
rename name u = record u { name = some name }

-- INSERT ... ON CONFLICT (email) DO UPDATE SET name = EXCLUDED.name, by the row in conflict.
unfoldable pub upsert_at : Option User → Text → Text → Statement User
upsert_at (some u) email name now id db = ok (
  rename name u,
  record db { users = update_where (λ v. text_eq v.email email) (rename name) db.users },
)
upsert_at none email name now id db =
    if any (user_has id) db.users
    then err unique_violation
    else ok (
      new_user now id email name,
      record db { users = db.users ++ new_user now id email name ∷ [] },
    )

unfoldable pub upsert_user : Text → Text → Statement User
unfolding upsert_at
upsert_user email name now id db =
    upsert_at (find (λ v. text_eq v.email email) db.users) email name now id db

module _ (env : Env) where
  unfoldable pub create_user : Text → Text → Action User
  create_user email name = query env (upsert_user email name)

  unfoldable pub get_user_by_id : Uuid → Action User
  get_user_by_id k =
      attempt (query env (select_row (λ db. find (user_has k) db.users)))
        (or_missing user_not_found) pure

  unfoldable pub delete_user : Uuid → Action (Unit {0})
  delete_user k = do
    n ← query env (exec (λ db. length (keep (user_has k) db.users)) (λ now. delete_user_row k))
    require_rows nothing_deleted n
