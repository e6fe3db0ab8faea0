-- ===== src/Dashboard/Connect/Once.antt =====
-- The monitor is started once: WEBGUI/renew.py, test_connect.
use houdini_lab.Common.{ℕ, suc, ◌≡◌, refl, true, false, List, [], ◌∷◌, arith, length}
use houdini_lab.Common.Text.{Text}
use houdini_lab.Dashboard.Connect.{
  WebEvent, start_background_task, emit_connected, test_connect, connections,
}

abbrev pub starts : List WebEvent → ℕ
starts [] = 0
starts (start_background_task ∷ es) = suc (starts es)
starts (emit_connected now server ∷ es) = starts es

abbrev pub greetings : List WebEvent → ℕ
greetings [] = 0
greetings (start_background_task ∷ es) = greetings es
greetings (emit_connected now server ∷ es) = suc (greetings es)

connections-running :
    (server : Text) (times : List Text)
    → let (thread, es) = connections server true times in
      (thread ≡ true) × (starts es ≡ 0) × (greetings es ≡ length times)
unfolding connections test_connect
connections-running server [] = (refl, refl, refl)
connections-running server (now ∷ times) =
    let (a, b, c) = connections-running server times in (a, b, omega (arith, c))

-- However many clients connect, the first starts the monitor and no other does, and every client
-- is greeted.
connections-start_once :
    (server now : Text) (times : List Text)
    → let (thread, es) = connections server false (now ∷ times) in
      (thread ≡ true) × (starts es ≡ 1) × (greetings es ≡ suc (length times))
unfolding connections test_connect
connections-start_once server now times =
    let (a, b, c) = connections-running server times in (a, omega (arith, b), omega (arith, c))
