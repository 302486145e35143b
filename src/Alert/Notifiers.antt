-- ===== src/Alert/Notifiers.antt =====
-- server/internal/alert/notifiers.go: what is sent by mail and to Slack. The SMTP client, the HTTP
-- client and the JSON encoder are parameters.
pub mod Mail
use cryo_lab_telemetry.Prelude.{
  ℕ, ◌≡◌, Text, text, is_empty, Option, none, some, List, [], ◌∷◌, ◌++◌, Bool, true, false, leb,
  if◌then◌else◌, get_elem?,
}
use cryo_lab_telemetry.Alert.Firing.{Message}

-- smtp.PlainAuth with an empty identity
pub record PlainAuth : Type 0 where
  pub username : Text
  pub password : Text
  pub host : Text

pub record EmailNotifier : Type 0 where
  pub host : Text
  pub port : Text
  pub auth : Option PlainAuth
  pub from : Text
  pub to : List Text

-- NewEmailNotifier
pub new_email_notifier : Text → Text → Text → Text → Text → List Text → EmailNotifier
new_email_notifier host port username password from to = record {
  host = host;
  port = port;
  auth =
      if is_empty username
      then none
      else some (record { username = username; password = password; host = host });
  from = from;
  to = to;
}

abbrev pub crlf : Text
crlf = 13 ∷ 10 ∷ []

-- strings.Join(to, ", ")
pub join_addresses : List Text → Text
join_addresses [] = []
join_addresses (a ∷ []) = a
join_addresses (a ∷ b ∷ to) = a ++ (text ", " ++ join_addresses (b ∷ to))

-- the message that EmailNotifier.Send writes
pub email_message : EmailNotifier → Text → Text → Text
email_message e subject body =
    text "From: "
    ++ (e.from
        ++ (crlf
            ++ (text "To: "
                ++ (join_addresses e.to
                    ++ (crlf
                        ++ (text "Subject: "
                            ++ (subject
                                ++ (crlf
                                    ++ (text "MIME-Version: 1.0"
                                        ++ (crlf
                                            ++ (text "Content-Type: text/plain; charset=UTF-8"
                                                ++ (crlf ++ (crlf ++ body)))))))))))))

-- The clients, over the states of what is outside. `do` is a POST with a JSON body: the status, or
-- `none` for an error.
pub record Clients (S : Type 0) : Type 0 where
  -- smtp.SendMail(addr, auth, from, to, msg)
  pub send_mail : Text → Option PlainAuth → Text → List Text → Text → S → Option (Unit {0}) × S
  -- json.Marshal(map[string]string{"text": …})
  pub marshal_text : Text → Option Text
  -- http.NewRequestWithContext and client.Do
  pub post_json : Text → Text → S → Option ℕ × S

pub data Notifier : Type 0 where
  email : EmailNotifier → Notifier
  -- the webhook's URL
  slack : Text → Notifier

module _ {S : Type 0} (c : Clients S) where
  -- EmailNotifier.Send
  send_email : EmailNotifier → Text → Text → S → Option (Unit {0}) × S
  send_email e subject body s =
      c.send_mail (e.host ++ (text ":" ++ e.port)) e.auth e.from e.to (email_message e subject body)
        s

  slack_answer : Option ℕ → Option (Unit {0})
  slack_answer none = none
  slack_answer (some status) = if leb 300 status then none else some tt

  -- SlackNotifier.Send
  send_slack : Text → Text → Text → S → Option (Unit {0}) × S
  send_slack url subject body s = elim (c.marshal_text (subject ++ 10 ∷ body)) [
    | none ↦ (none, s)
    | some payload ↦ let (status, s') = c.post_json url payload s in (slack_answer status, s')
  ]

  pub send : Notifier → Text → Text → S → Option (Unit {0}) × S
  send (email e) subject body s = send_email e subject body s
  send (slack url) subject body s = send_slack url subject body s
