-- ===== src/Api/Gmail/Compose.antt =====
-- internal/api/gmail/gmail.go: the text of a mail in HandleSendGmailMessage and HandleCreateGmailDraft.
pub mod Lines
pub mod Read
use jeffrey_s_agenda_tool.Prelude.{Text, text, join, List, [], ◌∷◌, ◌++◌, if◌then◌else◌}
use jeffrey_s_agenda_tool.Api.{MailBody}

-- A line with the recipients, if there are any.
unfoldable pub recipients_line : Text → List Text → Text
unfolding join
recipients_line name [] = []
recipients_line name (a ∷ as') = name ++ (join (text ",") (a ∷ as') ++ text "\r\n")

unfoldable pub content_type : MailBody → Text
content_type m = if m.is_html then text "text/html" else text "text/plain"

-- The format is "To: %s\r\n%s%sSubject: %s\r\nContent-Type: %s; charset=UTF-8\r\n\r\n%s".
unfoldable pub raw_message : MailBody → Text
unfolding recipients_line content_type join
raw_message m =
    text "To: "
    ++ (join (text ",") m.to
        ++ (text "\r\n"
            ++ (recipients_line (text "Cc: ") m.cc
                ++ (recipients_line (text "Bcc: ") m.bcc
                    ++ (text "Subject: "
                        ++ (m.subject
                            ++ (text "\r\nContent-Type: "
                                ++ (content_type m
                                    ++ (text "; charset=UTF-8\r\n\r\n" ++ m.body)))))))))
