-- ===== src/System.antt =====
-- cmd/server/main.go: the server and the worker, which share the database and Google. A step of the
-- system is a call of the server or a cycle of the worker, in any order and number, and the steps taken
-- are kept with the worlds in which they began.
use mathlib.Core.List.{append_assoc}
use jeffrey_s_agenda_tool.Prelude.{List, [], ◌∷◌, ◌++◌, ◌≡◌, refl, sym, ◌∙◌, ap, ◌⊎◌, inl, inr, All}
use jeffrey_s_agenda_tool.Database.Integrity.{IsConsistent}
use jeffrey_s_agenda_tool.Google.{Request}
use jeffrey_s_agenda_tool.Action.{Env, World}
use jeffrey_s_agenda_tool.Action.Sends.{Sends-pure}
use jeffrey_s_agenda_tool.Action.Adds.{Quiet-requests, AtMostOne}
use jeffrey_s_agenda_tool.Api.{write_json}
use jeffrey_s_agenda_tool.Api.Auth.{AuthEnv}
use jeffrey_s_agenda_tool.Api.Login.{LoginEnv}
use jeffrey_s_agenda_tool.Api.Server.{
  ServerCall, health, google_login, google_callback, protected, handle_health, serve, serve_call,
}
use jeffrey_s_agenda_tool.Api.Integrity.{serve_call-Keeps}
use jeffrey_s_agenda_tool.Api.Requests.Login.{
  handle_google_login-Sends, handle_google_callback-Sends,
}
use jeffrey_s_agenda_tool.Api.Requests.Allowed.{Allows}
use jeffrey_s_agenda_tool.Api.Requests.{serve-Allows}
use jeffrey_s_agenda_tool.Worker.{check_accounts}
use jeffrey_s_agenda_tool.Worker.Integrity.{check_accounts-IsConsistent}
use jeffrey_s_agenda_tool.Worker.Calendar.Requests.{IsReminder}
use jeffrey_s_agenda_tool.Worker.Requests.{check_accounts-Sends}

pub data Happening : Type 0 where
  request : Env → AuthEnv → LoginEnv → ServerCall → Happening
  cycle : Env → Happening

pub data Step : Happening → World → World → Type 0 where
  requested :
      {w : World} (env : Env) (auth : AuthEnv) (login : LoginEnv) (call : ServerCall)
      → Step (request env auth login call) w (serve_call env auth login call w).1
  cycled : {w : World} (env : Env) → Step (cycle env) w (check_accounts env w).1

-- The steps taken since s, the last one first, each with the world in which it began.
pub data Reach (s : World) : List (Happening × World) → World → Type 0 where
  here : Reach s [] s
  next :
      {past : List (Happening × World)} {t u : World} {h : Happening}
      → Reach s past t
      → Step h t u
      → Reach s ((h, t) ∷ past) u

Step-IsConsistent :
    {h : Happening} {t u : World} → Step h t u → IsConsistent t.db → IsConsistent u.db
Step-IsConsistent (requested {w} env auth login call) c =
    (serve_call-Keeps env auth login call).at w c
Step-IsConsistent (cycled {w} env) c = check_accounts-IsConsistent env w c

-- Whatever requests the server gets and cycles the worker runs, in whatever order, with whatever
-- failures and replies: from a consistent database the system reaches only consistent databases.
pub Reach-IsConsistent :
    {s t : World} {past : List (Happening × World)}
    → IsConsistent s.db
    → Reach s past t
    → IsConsistent t.db
Reach-IsConsistent c here = c
Reach-IsConsistent c (next r st) = Step-IsConsistent st (Reach-IsConsistent c r)

-- What a step that begins in w may send.
abbrev pub MaySend : Happening → World → List Request → Type 0
MaySend (request env auth login (protected route req)) w new =
    (new ≡ []) ⊎ ((q : Request) × (new ≡ q ∷ []) × Allows env auth.parse_uuid w route req q)
MaySend (request env auth login health) w new = new ≡ []
MaySend (request env auth login google_login) w new = new ≡ []
MaySend (request env auth login (google_callback req)) w new = new ≡ []
MaySend (cycle env) w new = All IsReminder new

-- The requests are those of the steps, in their order.
pub data Explains : List (Happening × World) → List Request → Type 0 where
  none_sent : Explains [] []
  then_sent :
      {past : List (Happening × World)} {old : List Request} (h : Happening) (w : World)
      (new : List Request)
      → MaySend h w new
      → Explains past old
      → Explains ((h, w) ∷ past) (new ++ old)

abbrev Added : Happening → World → World → Type 0
Added h w u = (new : List Request) × (u.requests ≡ new ++ w.requests) × MaySend h w new

at_most_one :
    (P : Request → Type 0) (w u : World)
    → AtMostOne P w u
    → (new : List Request) × (u.requests ≡ new ++ w.requests)
      × ((new ≡ []) ⊎ ((q : Request) × (new ≡ q ∷ []) × P q))
at_most_one P w u (inl e) = ([], e, inl refl)
at_most_one P w u (inr (q, e, h)) = (q ∷ [], e, inr (q, refl, h))

requested-Added :
    (env : Env) (auth : AuthEnv) (login : LoginEnv) (call : ServerCall) (w : World)
    → Added (request env auth login call) w (serve_call env auth login call w).1
unfolding serve_call handle_health write_json
requested-Added env auth login health w = ([], Quiet-requests _ w (Sends-pure _), refl)
requested-Added env auth login google_login w =
    ([], Quiet-requests _ w (handle_google_login-Sends env login), refl)
requested-Added env auth login (google_callback req) w =
    ([], Quiet-requests _ w (handle_google_callback-Sends env login req), refl)
requested-Added env auth login (protected route req) w =
    at_most_one (Allows env auth.parse_uuid w route req) w (serve env auth route req w).1
      (serve-Allows env auth route req w)

Step-Added : {h : Happening} {w u : World} → Step h w u → Added h w u
Step-Added (requested {w} env auth login call) = requested-Added env auth login call w
Step-Added (cycled {w} env) = (check_accounts-Sends env).at w

-- Whatever requests the server gets and cycles the worker runs, in whatever order: the requests sent
-- to Google that change something there are, one step after the other, those of the steps taken. A
-- served call of a route sends nothing, or one request that the route allows for its HTTP request,
-- with a token given in the world in which the call began; a cycle sends reminders; the health check
-- and the login send nothing.
pub Reach-Explains :
    {s t : World} {past : List (Happening × World)}
    → Reach s past t
    → (sent : List Request) × (t.requests ≡ sent ++ s.requests) × Explains past sent
Reach-Explains here = ([], refl, none_sent)
Reach-Explains {s} (next {t = w} {h} r st) =
    let (old, e, explained) = Reach-Explains r in
    let (new, f, may) = Step-Added st in
    (
      new ++ old,
      f ∙ (ap (λ l. new ++ l) e ∙ sym (append_assoc new old s.requests)),
      then_sent h w new may explained,
    )
