-- ===== src/Main/App/Shutdown.antt =====
-- The end of the application.
use sctp_probe.Prelude.{ℕ, ◌≡◌, refl, Text}
use sctp_probe.Server.Shutdown.{IsShut, stop_all-IsShut}
use sctp_probe.Client.Shutdown.{IsLeft, disconnect_all-IsLeft}
use sctp_probe.Main.App.{App, shut_down}

-- When the application has ended, no port has a listener and no association is left, the sockets of
-- all that were there and of the peers of all listeners have been closed, and what was logged is
-- untouched.
pub shut_down_lem :
    (app : App) (port : ℕ) (id : Text)
    → IsShut port app.server (shut_down app).server
      × IsLeft id app.client (shut_down app).client
      × ((shut_down app).world ≡ app.world)
unfolding shut_down
shut_down_lem app port id =
    (stop_all-IsShut app.server port, disconnect_all-IsLeft app.client id, refl)
