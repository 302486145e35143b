-- ===== src/Alert/Notifiers/Mail.antt =====
-- What a mail reader makes of a message.
use cryo_lab_telemetry.Prelude.{
  ℕ, ◌≡◌, ◌≢◌, refl, ap, ◌∙◌, Text, text, is_empty, Option, none, some, List, [], ◌∷◌, ◌++◌, false,
  ◌==◌, if◌then◌else◌, arith, All,
}
use mathlib.Core.List.{append_assoc, append-nil}
use cryo_lab_telemetry.Prelude.Split.Laws.{Without}
use cryo_lab_telemetry.Alert.Notifiers.{EmailNotifier, crlf, join_addresses, email_message}

abbrev pub with_line : Text → Option (List Text × Text) → Option (List Text × Text)
with_line l none = none
with_line l (some (ls, body)) = some (l ∷ ls, body)

-- A line without the carriage return that may end it.
abbrev chomp : Text → Text
chomp [] = []
chomp (c ∷ []) = if c == 13 then [] else c ∷ []
chomp (c ∷ d ∷ s) = c ∷ chomp (d ∷ s)

-- The lines of the header, which ends at the first empty line, and the body behind it; `cur` is
-- what has been read of the line. A line ends at a line feed, with or without a carriage return
-- before it, since net/smtp sends a line feed that stands alone as both.
pub read_from : Text → Text → Option (List Text × Text)
read_from cur [] = none
read_from cur (c ∷ s) =
    let more = read_from (cur ++ c ∷ []) s in
    let next_line = read_from [] s in
    if c == 10
    then (if is_empty (chomp cur) then some ([], s) else with_line (chomp cur) next_line)
    else more

pub read_message : Text → Option (List Text × Text)
read_message s = read_from [] s

abbrev ended : Text → Text → Option (List Text × Text)
ended line s = if is_empty line then some ([], s) else with_line line (read_from [] s)

chomp-snoc : (line : Text) → chomp (line ++ 13 ∷ []) ≡ line
chomp-snoc [] = refl
chomp-snoc (c ∷ []) = refl
chomp-snoc (c ∷ d ∷ s) = ap (λ l. c ∷ l) (chomp-snoc (d ∷ s))

read_from-line :
    (cur line s : Text)
    → Without 10 line
    → read_from cur (line ++ (crlf ++ s)) ≡ ended (cur ++ line) s
unfolding read_from
read_from-line cur [] s h = rw (append-nil cur, chomp-snoc cur) refl
read_from-line cur (c ∷ line) s (other, h) = rw (differs other) (
    read_from-line (cur ++ c ∷ []) line s h
    ∙ ap (λ (l : Text). ended l s) (append_assoc cur (c ∷ []) line))
  where
    differs : c ≢ 10 → (c == 10) ≡ false
    differs k = ground arith

Without-append : (s t : Text) → Without 10 s → Without 10 t → Without 10 (s ++ t)
Without-append [] t h k = k
Without-append (c ∷ s) t (d, h) k = (d, Without-append s t h k)

join_addresses-Without : (to : List Text) → All (Without 10) to → Without 10 (join_addresses to)
unfolding join_addresses
join_addresses-Without [] h = tt
join_addresses-Without (a ∷ []) (h, hs) = h
join_addresses-Without (a ∷ b ∷ to) (h, hs) =
    Without-append a _ h (omega arith, (omega arith, join_addresses-Without (b ∷ to) hs))

-- The lines that a message is to have in its header.
abbrev pub header_lines : EmailNotifier → Text → List Text
header_lines e subject =
    (text "From: " ++ e.from)
    ∷ (text "To: " ++ join_addresses e.to)
    ∷ (text "Subject: " ++ subject)
    ∷ text "MIME-Version: 1.0"
    ∷ text "Content-Type: text/plain; charset=UTF-8"
    ∷ []

line_lem :
    (c : ℕ) (line s : Text)
    → Without 10 (c ∷ line)
    → read_from [] ((c ∷ line) ++ (crlf ++ s)) ≡ with_line (c ∷ line) (read_from [] s)
line_lem c line s h = read_from-line [] (c ∷ line) s h

-- A reader that ends a line of the header at a line feed, with or without a carriage return before
-- it, gets the sender, the recipients, the subject and the body of a message back, each in its
-- place, where sender, recipients and subject have no line feed; the body may be any text.
pub read_message-email_message :
    (e : EmailNotifier) (subject body : Text)
    → Without 10 e.from
    → All (Without 10) e.to
    → Without 10 subject
    → read_message (email_message e subject body) ≡ some (header_lines e subject, body)
unfolding read_message email_message read_from
read_message-email_message e subject body from to subj =
    let end : Text = crlf ++ body in
    let mime : Text = text "MIME-Version: 1.0" in
    let kind : Text = text "Content-Type: text/plain; charset=UTF-8" in
    let typed : Text = kind ++ (crlf ++ end) in
    let versioned : Text = mime ++ (crlf ++ typed) in
    let about : Text = (text "Subject: " ++ subject) ++ (crlf ++ versioned) in
    let sent_to : Text = (text "To: " ++ join_addresses e.to) ++ (crlf ++ about) in
    line_lem b'F' (text "rom: " ++ e.from) sent_to
      (Without-append (text "From: ") e.from (omega arith) from)
    ∙ ap (with_line (text "From: " ++ e.from)) (
        line_lem b'T' (text "o: " ++ join_addresses e.to) about (
          Without-append (text "To: ") (join_addresses e.to) (omega arith)
            (join_addresses-Without e.to to))
        ∙ ap (with_line (text "To: " ++ join_addresses e.to)) (
            line_lem b'S' (text "ubject: " ++ subject) versioned
              (Without-append (text "Subject: ") subject (omega arith) subj)
            ∙ ap (with_line (text "Subject: " ++ subject)) (
                line_lem b'M' (text "IME-Version: 1.0") typed (omega arith)
                ∙ ap (with_line mime) (
                    line_lem b'C' (text "ontent-Type: text/plain; charset=UTF-8") end
                      (omega arith)))))
