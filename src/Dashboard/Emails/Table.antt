-- ===== src/Dashboard/Emails/Table.antt =====
-- The tables of the two mails: WEBGUI/emails.py.
use mathlib.Core.List.{append-nil, append_assoc}
use houdini_lab.Common.{◌≡◌, ◌∙◌, List, [], ◌∷◌, ◌++◌}
use houdini_lab.Common.Text.{Text}
use houdini_lab.Dashboard.Sensors.{Status}
use houdini_lab.Dashboard.Emails.{
  mail_row, add_rows, send_email_overheat, send_email_errors, overheat_head, errors_head,
  overheat_tail, errors_tail,
}

-- The rows, one for each Iris, in order.
abbrev pub table : List Status → Text
table [] = []
table (s ∷ ss) = mail_row s ++ table ss

add_rows-table : (msg : Text) (ss : List Status) → add_rows msg ss ≡ msg ++ table ss
unfolding add_rows
add_rows-table msg [] = rw append-nil
add_rows-table msg (s ∷ ss) =
    add_rows-table (msg ++ mail_row s) ss ∙ append_assoc msg (mail_row s) (table ss)

rows-between :
    (msg rest : Text) (ss : List Status) → add_rows msg ss ++ rest ≡ msg ++ (table ss ++ rest)
rows-between msg rest ss = rw (add_rows-table msg ss) (append_assoc msg (table ss) rest)

-- Both mails hold the same table, the row of every reported Iris in order, each between a head
-- and a tail of its own that do not depend on the Irises.
mails-table :
    (server recipient utc_datetime thresh : Text) (ss : List Status)
    → ((send_email_overheat server recipient utc_datetime ss thresh).contents
        ≡ overheat_head server utc_datetime thresh ++ (table ss ++ overheat_tail))
      × ((send_email_errors server recipient utc_datetime ss thresh).contents
          ≡ errors_head server utc_datetime ++ (table ss ++ errors_tail))
unfolding send_email_overheat send_email_errors
mails-table server recipient utc_datetime thresh ss =
    (rows-between _ overheat_tail ss, rows-between _ errors_tail ss)
