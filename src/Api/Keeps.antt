-- ===== src/Api/Keeps.antt =====
-- internal/api: what the steps of the handlers keep of the tables.
use jeffrey_s_agenda_tool.Prelude.{ℕ, Text, Option, none, some, List, [], ◌∷◌}
use jeffrey_s_agenda_tool.Domain.{Time}
use jeffrey_s_agenda_tool.Database.{Err, Db}
use jeffrey_s_agenda_tool.Google.{Token, Message, Part}
use jeffrey_s_agenda_tool.Action.{Env, Action}
use jeffrey_s_agenda_tool.Action.Keeps.{Keeps, Keeps-pure, Keeps-crash, Keeps-bind, keeps_rules}
use jeffrey_s_agenda_tool.Store.Sql.{store_rules}
use jeffrey_s_agenda_tool.Api.{Payload, write_json, write_json_error, require, report}
use jeffrey_s_agenda_tool.Api.Calendar.{or_from_now}
use jeffrey_s_agenda_tool.Api.Gmail.Messages.{transform, transform_entry, transform_messages}

pub write_json-Keeps : {P : Db → Type 0} (n : ℕ) (p : Payload) → Keeps P (write_json n p)
unfolding write_json
write_json-Keeps n p = search store_rules

pub write_json_error-Keeps : {P : Db → Type 0} (n : ℕ) (t : Text) → Keeps P (write_json_error n t)
unfolding write_json_error
write_json_error-Keeps n t = write_json-Keeps n _

pub report-Keeps :
    {P : Db → Type 0} (env : Env) (n : ℕ) (prefix : Text) (e : Err)
    → Keeps P (report env n prefix e)
unfolding report
report-Keeps env n prefix e = write_json_error-Keeps n _

pub require-Keeps :
    {P : Db → Type 0} {A B : Type 0} (o : Option A) (m : Action B) (k : A → Action B)
    → Keeps P m
    → ((a : A) → Keeps P (k a))
    → Keeps P (require o m k)
unfolding require
require-Keeps none m k km kk = km
require-Keeps (some a) m k km kk = kk a

pub or_from_now-Keeps :
    {P : Db → Type 0} (env : Env) (shift : Time → Time) (t : Text)
    → Keeps P (or_from_now env shift t)
unfolding or_from_now
or_from_now-Keeps env shift t = search keeps_rules

transform-Keeps :
    {P : Db → Type 0} (env : Env) (entry m : Message) (p : Option Part)
    → Keeps P (transform env entry m p)
unfolding transform
transform-Keeps env entry m none = Keeps-crash
transform-Keeps env entry m (some p) = search keeps_rules

transform_entry-Keeps :
    {P : Db → Type 0} (env : Env) (token : Token) (entry : Message)
    → Keeps P (transform_entry env token entry)
unfolding transform_entry
transform_entry-Keeps env token entry = search (keeps_rules, transform-Keeps)

pub transform_messages-Keeps :
    {P : Db → Type 0} (env : Env) (token : Token) (entries : List Message)
    → Keeps P (transform_messages env token entries)
unfolding transform_messages
transform_messages-Keeps env token [] = Keeps-pure []
transform_messages-Keeps env token (entry ∷ entries) =
    Keeps-bind _ _ (transform_entry-Keeps env token entry)
      (λ views. Keeps-bind _ _ (transform_messages-Keeps env token entries) (λ later. Keeps-pure _))
