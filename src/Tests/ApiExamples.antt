-- ===== src/Tests/ApiExamples.antt =====
-- The theorems on internal/api at the small installation.
use jeffrey_s_agenda_tool.Prelude.{text, some, ◌≡◌, ◌⊎◌}
use jeffrey_s_agenda_tool.Prelude.{join, [], ◌∷◌}
use jeffrey_s_agenda_tool.Api.Mail.{parse_email_addresses}
use jeffrey_s_agenda_tool.Api.Mail.Addresses.{parse_email_addresses-join}
use jeffrey_s_agenda_tool.Tests.Facts.{two-IsAddress}
use jeffrey_s_agenda_tool.Domain.{Uuid}
use jeffrey_s_agenda_tool.Api.Login.{handle_google_callback}
use jeffrey_s_agenda_tool.Api.Login.State.{handle_google_callback-IsOwnLogin}
use jeffrey_s_agenda_tool.Api.Server.{delete_rule, serve}
use jeffrey_s_agenda_tool.Api.Permits.{Authenticates, Permits}
use jeffrey_s_agenda_tool.Api.Access.{serve-IsAuthorized}
use jeffrey_s_agenda_tool.Tests.Data.{env, db, world, auth, delete_request, login, forged_callback}

handle_google_callback-IsOwnLogin_example :
    ((handle_google_callback env login forged_callback world).1.db ≡ db)
    ⊎ (some (text "other") ≡ some (text "state"))
handle_google_callback-IsOwnLogin_example =
    handle_google_callback-IsOwnLogin env login forged_callback world

serve-IsAuthorized_example :
    ((serve env auth delete_rule delete_request world).1.db ≡ db)
    ⊎ ((user : Uuid) × Authenticates auth delete_request user
        × Permits auth.parse_uuid db delete_rule delete_request user)
serve-IsAuthorized_example = serve-IsAuthorized env auth delete_rule delete_request world

parse_email_addresses-join_example :
    parse_email_addresses (join (text ", ") (text "a@b.nl" ∷ text "c@d.nl" ∷ []))
    ≡ text "a@b.nl" ∷ text "c@d.nl" ∷ []
parse_email_addresses-join_example =
    parse_email_addresses-join (text "a@b.nl" ∷ text "c@d.nl" ∷ []) two-IsAddress
