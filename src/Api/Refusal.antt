-- ===== src/Api/Refusal.antt =====
-- internal/api/server.go: requests without a valid token.
use jeffrey_s_agenda_tool.Prelude.{
  not-false, Text, is_empty, Bool, true, false, not, Option, none, some, ◌≡◌, refl, if◌then◌else◌,
}
use jeffrey_s_agenda_tool.Domain.{Uuid}
use jeffrey_s_agenda_tool.Database.{ok}
use jeffrey_s_agenda_tool.Action.{Env, World, Action, pure}
use jeffrey_s_agenda_tool.Api.{
  HttpRequest, Payload, Response, write_json, write_json_error, require,
}
use jeffrey_s_agenda_tool.Api.Auth.{AuthEnv, auth_middleware}
use jeffrey_s_agenda_tool.Api.Permits.{Authenticates}
use jeffrey_s_agenda_tool.Api.Server.{Route, handle, serve}

-- The answer is status 401 with a message, and the world is as it was.
abbrev pub Refuses : Action Response → Type 0
Refuses m =
    (t : Text) × ((w : World)
      → m w ≡ (ok (record { status = 401; payload = Payload.message t }), w))

write_json_error-Refuses : (t : Text) → Refuses (write_json_error 401 t)
unfolding write_json_error write_json pure
write_json_error-Refuses t = (t, λ w. refl)

if-Refuses :
    (b : Bool) (m n : Action Response)
    → Refuses m
    → (b ≡ false → Refuses n)
    → Refuses (if b then m else n)
if-Refuses true m n rm rn = rm
if-Refuses false m n rm rn = rn refl

require-Refuses :
    {A : Type 0} (o : Option A) (m : Action Response) (k : A → Action Response)
    → Refuses m
    → ((a : A) → o ≡ some a → Refuses (k a))
    → Refuses (require o m k)
unfolding require
require-Refuses none m k rm rk = rm
require-Refuses (some a) m k rm rk = rk a refl

auth_middleware-Refuses :
    (auth : AuthEnv) (next : Option Uuid → Action Response) (req : HttpRequest)
    → ((user : Uuid) → Authenticates auth req user → ⊥)
    → Refuses (auth_middleware auth next req)
unfolding auth_middleware
auth_middleware-Refuses auth next req nobody =
    if-Refuses (is_empty req.authorization) _ _ (write_json_error-Refuses _) λ header.
      require-Refuses _ _ _ (write_json_error-Refuses _) λ token parsed.
        if-Refuses (not token.valid) _ _ (write_json_error-Refuses _) λ invalid.
          require-Refuses _ _ _ (write_json_error-Refuses _) λ claims claimed.
            require-Refuses _ _ _ (write_json_error-Refuses _) λ id named.
              require-Refuses _ _ _ (write_json_error-Refuses _) λ user is_user. absurd (
                nobody user (
                  token,
                  claims,
                  id,
                  parsed,
                  not-false token.valid invalid,
                  claimed,
                  named,
                  is_user,
                ))

-- A request whose header authenticates no user gets the status 401 on every route: nothing is read
-- or written, and nothing is sent to Google.
pub serve-Refuses :
    (env : Env) (auth : AuthEnv) (route : Route) (req : HttpRequest) (w : World)
    → ((user : Uuid) → Authenticates auth req user → ⊥)
    → (t : Text) × (serve env auth route req w
        ≡ (ok (record { status = 401; payload = Payload.message t }), w))
unfolding serve
serve-Refuses env auth route req w nobody =
    let (t, refused) = auth_middleware-Refuses auth (handle env auth route req) req nobody in
    (t, refused w)
