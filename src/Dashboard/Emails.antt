-- ===== src/Dashboard/Emails.antt =====
-- WEBGUI/emails.py: the two alert mails. The names of the server and of the recipient, which the
-- program takes from its environment, are arguments; sending (yagmail) is an event of the monitor.
pub mod Table
use houdini_lab.Common.{List, [], ◌∷◌, ◌++◌}
use houdini_lab.Common.Text.{Text, codes}
use houdini_lab.Dashboard.Sensors.{Status}

pub record Mail : Type 0 where
  pub to : Text
  pub subject : Text
  pub contents : Text

abbrev pub line_feed : Text
line_feed = 10 ∷ []

-- What one turn of the loop adds.
unfoldable pub mail_row : Status → Text
mail_row s =
    codes "<br>"
    ++ s.sn
    ++ codes ","
    ++ s.lms7temp
    ++ codes ","
    ++ s.zynqtemp
    ++ codes ","
    ++ s.txtemp
    ++ codes ","
    ++ s.rxtemp

unfoldable pub add_rows : Text → List Status → Text
add_rows msg [] = msg
add_rows msg (s ∷ ss) = add_rows (msg ++ mail_row s) ss

abbrev pub table_head : Text
table_head = line_feed ++ line_feed ++ codes "serial_number,LMS7_temp,ZYNQ_temp,TX_temp,RX_temp"

abbrev pub code_list : Text
code_list =
    line_feed
    ++ codes "-100.00: sdr.readSensor() error"
    ++ line_feed
    ++ codes "-101.00: does not exist in sensor readings"
    ++ line_feed
    ++ codes "-102.00: error when creating a SoapySDR instance"

-- What stands before the table, and after it.
unfoldable pub overheat_head : Text → Text → Text → Text
overheat_head server utc_datetime thresh =
    codes "Some Iris modules on the base station connected to Server "
    ++ server
    ++ codes " are over "
    ++ thresh
    ++ codes " C."
    ++ line_feed
    ++ line_feed
    ++ codes "Sensor Log: "
    ++ utc_datetime
    ++ table_head

unfoldable pub errors_head : Text → Text → Text
errors_head server utc_datetime =
    codes "Some Iris modules on the base station connected to Server "
    ++ server
    ++ codes "have errors."
    ++ line_feed
    ++ line_feed
    ++ codes "Sensor Log: "
    ++ utc_datetime
    ++ table_head

abbrev pub overheat_tail : Text
overheat_tail = codes "<br>Error Description:" ++ code_list

abbrev pub errors_tail : Text
errors_tail = codes "<br>Error Desciption:" ++ code_list

unfoldable pub send_email_overheat : Text → Text → Text → List Status → Text → Mail
send_email_overheat server recipient utc_datetime irises_sensors thresh = record {
  to = recipient;
  subject = codes "[RENEW] Overheat alert!";
  contents = add_rows (overheat_head server utc_datetime thresh) irises_sensors ++ overheat_tail;
}

unfoldable pub send_email_errors : Text → Text → Text → List Status → Text → Mail
send_email_errors server recipient utc_datetime irises_sensors thresh = record {
  to = recipient;
  subject = codes "[RENEW] Sensor error alert!";
  contents = add_rows (errors_head server utc_datetime) irises_sensors ++ errors_tail;
}
