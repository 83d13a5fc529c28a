-- ===== src/Action.antt =====
-- Effectful code: a Go function with a context is an action on a world that holds the database and
-- the requests sent to Google. What the world outside decides (clock, random values, failures,
-- replies) is given by an environment, as functions of the number of the step.
pub mod Keeps
pub mod Sends
pub mod Returns
pub mod Answers
pub mod Ensures
pub mod Ticks
pub mod Adds
pub mod Yields
use jeffrey_s_agenda_tool.Prelude.{
  ℕ, suc, Text, Bool, Option, none, some, List, [], ◌∷◌, ◌++◌, if◌then◌else◌,
}
use jeffrey_s_agenda_tool.Json.{Json}
use jeffrey_s_agenda_tool.Domain.{Uuid, Time, Bytes}
use jeffrey_s_agenda_tool.Database.{Err, external, Result, ok, err, panic, Db, Statement}
use jeffrey_s_agenda_tool.Google.{Google, Reply, answer, failed, Request}

-- AES-GCM, from crypto/aes and crypto/cipher.
pub record Cipher : Type 0 where
  pub seal : Bytes → Bytes → Bytes → Bytes
  pub unseal : Bytes → Bytes → Bytes → Option Bytes

pub record Env : Type 0 where
  pub now : ℕ → Time
  pub gen_random_uuid : ℕ → Uuid
  -- the failure of a statement: a lost connection, a timeout, or a constraint of the schema that is
  -- not written out in the model (a length, the form of an e-mail address)
  pub db_error : ℕ → Option Text
  -- the environment variable ENCRYPTION_KEY
  pub encryption_key : Bytes
  -- io.ReadFull(rand.Reader, nonce)
  pub nonce : ℕ → Reply Bytes
  pub cipher : Cipher
  pub google : Google
  -- the standard library's tables and formats
  pub to_lower : Text → Text
  pub parse_time : Text → Option Time
  pub format_time : Time → Text
  -- time.Parse of the layout "Mon, 02 Jan 2006 15:04:05 -0700", and Time.AddDate(0, months, 0)
  pub parse_mail_time : Text → Option Time
  pub add_months : Time → ℕ → Time
  -- the JSON form of a time, and PostgreSQL's text of a JSON value that is no string
  pub marshal_time : Time → Text
  pub json_text : Json → Text
  -- base64.URLEncoding.EncodeToString
  pub encode_base64 : Text → Text
  pub decode_base64 : Text → Option Text
  pub error_text : Err → Text

pub record World : Type 0 where
  pub db : Db
  pub tick : ℕ
  -- the requests sent, the latest first
  pub requests : List Request

abbrev pub Action {ℓ} : Type ℓ → Type ℓ
Action A = World → Result A × World

abbrev pub step : World → World
step w = record w { tick = suc w.tick }

module _ {A : Type 0} where
  unfoldable pub pure : A → Action A
  pure a w = (ok a, w)

  unfoldable pub fail : Err → Action A
  fail e w = (err e, w)

  unfoldable pub crash : Action A
  crash w = (panic, w)

  -- A result that was computed without effects.
  unfoldable pub lift : Result A → Action A
  lift r w = (r, w)

  unfoldable pub settle : Result (A × Db) → Action A
  settle (ok (a, db)) w = (ok a, record w { db = db; tick = suc w.tick })
  settle (err e) w = (err e, step w)
  settle panic w = (panic, step w)

  -- The server runs the statement, or the call fails and nothing has happened.
  unfoldable pub run_statement : Option Text → Result (A × Db) → Action A
  unfolding settle
  run_statement (some t) r w = (err (external t), step w)
  run_statement none r w = settle r w

  unfoldable pub receive : Reply A → Action A
  receive (answer a) w = (ok a, step w)
  receive (failed t) w = (err (external t), step w)

module _ {A B : Type 0} where
  -- What follows on success, and on an error.
  unfoldable pub continue : Result A → (Err → Action B) → (A → Action B) → Action B
  continue (ok a) handler k = k a
  continue (err e) handler k = handler e
  continue panic handler k = crash

  -- `a, err := m; if err != nil { handler }; k`
  unfoldable pub attempt : Action A → (Err → Action B) → (A → Action B) → Action B
  unfolding continue crash
  attempt m handler k w = let (r, w') = m w in continue r handler k w'

  infixl 5 ◌>>=◌ ◌>>◌
  -- `a, err := m; if err != nil { return err }; k`
  unfoldable pub ◌>>=◌ : Action A → (A → Action B) → Action B
  unfolding attempt fail
  m >>= k = attempt m fail k

  unfoldable pub ◌>>◌ : Action A → Action B → Action B
  unfolding ◌>>=◌
  m >> k = m >>= λ _. k

-- `if err := m; err != nil { log }`: the error goes to the process log alone.
unfoldable pub logged : Action (Unit {0}) → Action (Unit {0})
unfolding attempt pure
logged m = attempt m (λ _. pure tt) pure

-- `for _, x := range xs { body }`, for a body that reports its errors itself.
unfoldable pub for_each : {A : Type 0} → List A → (A → Action (Unit {0})) → Action (Unit {0})
unfolding ◌>>◌ pure
for_each [] body = pure tt
for_each (x ∷ xs) body = body x >> for_each xs body

module _ (env : Env) where
  unfoldable pub clock : Action Time
  clock w = (ok (env.now w.tick), step w)

  -- One SQL statement, by Exec, Query or QueryRow.
  unfoldable pub query : {A : Type 0} → Statement A → Action A
  unfolding run_statement
  query s w =
      run_statement (env.db_error w.tick) (s (env.now w.tick) (env.gen_random_uuid w.tick) w.db) w

-- A request that reads.
unfoldable pub ask : {A : Type 0} → (ℕ → Reply A) → Action A
unfolding receive
ask reply w = receive (reply w.tick) w

-- A request that changes something, whatever the reply says.
unfoldable pub send : {A : Type 0} → Request → (ℕ → Reply A) → Action A
unfolding receive
send request reply w = receive (reply w.tick) (record w { requests = request ∷ w.requests })
