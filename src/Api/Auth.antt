-- ===== src/Api/Auth.antt =====
-- internal/api/server.go: authMiddleware. The JWT library and the uuid library are parameters.
use jeffrey_s_agenda_tool.Prelude.{
  Text, text, has_prefix, drop, length, is_empty, Bool, not, Option, none, some, if◌then◌else◌,
}
use jeffrey_s_agenda_tool.Json.{Json}
use jeffrey_s_agenda_tool.Domain.{Uuid}
use jeffrey_s_agenda_tool.Action.{Action}
use jeffrey_s_agenda_tool.Api.{HttpRequest, Response, write_json_error, require}

pub data SigningMethod : Type 0 where
  hmac other_method : SigningMethod

-- jwt.Token: its claims are a map, or of another type.
pub record Jwt : Type 0 where
  pub valid : Bool
  pub claims : Option (Text → Option Json)

pub record AuthEnv : Type 0 where
  -- jwt.Parse, which asks for the key of the token's method
  pub parse_jwt : Text → (SigningMethod → Option Text) → Option Jwt
  pub parse_uuid : Text → Option Uuid
  -- the environment variable JWT_SECRET_KEY
  pub jwt_secret_key : Text

-- strings.TrimPrefix
unfoldable pub trim_prefix : Text → Text → Text
unfolding has_prefix
trim_prefix s prefix = if has_prefix s prefix then drop (length prefix) s else s

-- v.(string)
abbrev pub as_string : Option Json → Option Text
as_string (some (Json.str s)) = some s
as_string _ = none

module _ (auth : AuthEnv) where
  -- The key function: other methods than HMAC are refused.
  unfoldable pub key_of : SigningMethod → Option Text
  key_of hmac = some auth.jwt_secret_key
  key_of other_method = none

  unfoldable pub auth_middleware : (Option Uuid → Action Response) → HttpRequest → Action Response
  unfolding require write_json_error trim_prefix key_of
  auth_middleware next req =
      if is_empty req.authorization
      then write_json_error 401 (text "Geen authenticatie header")
      else require (auth.parse_jwt (trim_prefix req.authorization (text "Bearer ")) key_of)
          (write_json_error 401 (text "Ongeldige token"))
          λ token.
            if not token.valid
            then write_json_error 401 (text "Ongeldige token")
            else require token.claims (write_json_error 401 (text "Ongeldige claims")) λ claims.
              require (as_string (claims (text "user_id")))
                (write_json_error 401 (text "Geen user ID in token"))
                λ id.
                  require (auth.parse_uuid id) (write_json_error 401 (text "Ongeldig user ID"))
                    λ user_id. next (some user_id)
