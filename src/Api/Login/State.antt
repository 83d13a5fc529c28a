-- ===== src/Api/Login/State.antt =====
-- internal/api/auth/auth.go: the browser that a callback acts for.
use jeffrey_s_agenda_tool.Prelude.{not-false, text_eq, text_eq_iff, not, some, ◌≡◌, ◌⊎◌, refl}
use jeffrey_s_agenda_tool.Database.{Db}
use jeffrey_s_agenda_tool.Action.{Env, World}
use jeffrey_s_agenda_tool.Api.Needs.{
  Needs, Needs-holds, Needs-write_json_error, Needs-require, Needs-if,
}
use jeffrey_s_agenda_tool.Api.Login.{LoginEnv, CallbackRequest, handle_google_callback}

callback-Needs :
    (env : Env) (login : LoginEnv) (req : CallbackRequest) (db : Db)
    → Needs db (req.state_cookie ≡ some req.state) (handle_google_callback env login req)
unfolding handle_google_callback
callback-Needs env login req db =
    Needs-require req.state_cookie _ _ (Needs-write_json_error _ _) λ cookie found.
      Needs-if (not (text_eq req.state cookie)) _ _ (Needs-write_json_error _ _) λ same.
        Needs-holds _
          (let equal = (text_eq_iff req.state cookie).0 (not-false _ same) in rw equal found)

-- The callback of the login leaves the tables as they are, unless the state in its URL is the one in
-- the cookie of the browser.
pub handle_google_callback-IsOwnLogin :
    (env : Env) (login : LoginEnv) (req : CallbackRequest) (w : World)
    → ((handle_google_callback env login req w).1.db ≡ w.db) ⊎ (req.state_cookie ≡ some req.state)
handle_google_callback-IsOwnLogin env login req w = (callback-Needs env login req w.db).at w refl
