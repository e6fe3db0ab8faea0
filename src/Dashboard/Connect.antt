-- ===== src/Dashboard/Connect.antt =====
-- WEBGUI/renew.py, test_connect: the first web client starts the monitor.
pub mod Once
use houdini_lab.Common.{Bool, true, false, List, [], ◌∷◌, ◌++◌}
use houdini_lab.Common.Text.{Text}

pub data WebEvent : Type 0 where
  start_background_task : WebEvent
  emit_connected : Text → Text → WebEvent

-- Under the lock: `thread` is set (true) or None (false).
unfoldable pub test_connect : Text → Bool → Text → Bool × List WebEvent
test_connect server false now = (true, start_background_task ∷ emit_connected now server ∷ [])
test_connect server true now = (true, emit_connected now server ∷ [])

-- Connections one after another, at the times given.
unfoldable pub connections : Text → Bool → List Text → Bool × List WebEvent
connections server thread [] = (thread, [])
connections server thread (now ∷ later) =
    let (thread', events) = test_connect server thread now in
    let (thread'', more) = connections server thread' later in (thread'', events ++ more)
