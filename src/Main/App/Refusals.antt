-- ===== src/Main/App/Refusals.antt =====
-- Requests that are answered with an HTTP error.
use sctp_probe.Prelude.{
  ◌≢◌, ℕ, ◌≡◌, ◌⊎◌, refl, Bool, true, false, List, [], ◌∷◌, Option, none, some, Text, inl, inr,
  is_some, sym, ap, Bool-cases, text_eq, if◌then◌else◌, ◌==◌, suc,
}
use sctp_probe.Dict.{get}
use sctp_probe.Server
use sctp_probe.Server.{StartResult, StartError, port_eq, SctpServer}
use sctp_probe.Client
use sctp_probe.Client.{ConnectResult, ConnectError, SctpClient, Conn}
use sctp_probe.Rules.{Env, World}
use sctp_probe.Main
use sctp_probe.Main.{
  SendBody, to_peers, on_connection, put_out, send_out, Reply, Attempt, went, failed, log_sent,
  with_bytes, bytes_of,
}
use sctp_probe.Main.App.{App, Outside, env_of}
use sctp_probe.Main.App.Endpoints
use sctp_probe.Main.App.Endpoints.{
  Request, Response, http_error, handle, send_response, pcap_response, start_reply, stop_reply,
  connect_reply, disconnect_reply,
}

-- The client has no association of this name that is connected.
abbrev pub IsDown : Text → App → Type 0
IsDown id app =
    (get text_eq id app.client.conns ≡ none)
    ⊎ ((entry : Conn) × (get text_eq id app.client.conns ≡ some entry)
        × (entry.state ≡ Client.error))

-- Which requests can be refused with which status, and when.
abbrev pub IsReason : Outside → App → Request → ℕ → Type 0
IsReason out app (Endpoints.server_start port ppid host) code =
    ((code ≡ 503) × (out.sctp_available ≡ false))
    ⊎ ((code ≡ 409)
        × (out.sctp_available ≡ true)
        × (is_some (get port_eq port app.server.listeners) ≡ true))
IsReason out app (Endpoints.client_connect host port ppid) code =
    ((code ≡ 503) × (out.sctp_available ≡ false))
    ⊎ ((code ≡ 502) × (out.sctp_available ≡ true) × (out.created ≡ none))
IsReason out app (Endpoints.send_bytes body) code =
    ((code ≡ 400) × (bytes_of (env_of out app) body body.template ≡ none))
    ⊎ ((code ≡ 409)
        × (is_some (bytes_of (env_of out app) body body.template) ≡ true)
        × (c : ℕ) × (id : Text) × (body.connection_id ≡ some (c ∷ id))
        × IsDown (c ∷ id) app)
IsReason out app _ code = ⊥

-- Nothing is sent, logged or broadcast, and no listener, peer, association or rule changes; a 502 spends
-- the number of a connection, and nothing else does.
pub record IsUnchanged (code : ℕ) (app app' : App) : Type 0 where
  pub same_world : app'.world ≡ app.world
  pub same_server : app'.server ≡ app.server
  pub same_conns : app'.client.conns ≡ app.client.conns
  pub same_closed : app'.client.closed ≡ app.client.closed
  pub counter :
      app'.client.counter ≡ (if code == 502 then suc app.client.counter else app.client.counter)

IsUnchanged-refl : (code : ℕ) (app : App) → (code == 502) ≡ false → IsUnchanged code app app
IsUnchanged-refl code app other = record {
  same_world = refl;
  same_server = refl;
  same_conns = refl;
  same_closed = refl;
  counter = rw other refl;
}

code_of : Response → ℕ → ℕ
code_of (http_error code) d = code
code_of _ d = d

-- The two ends of a response with an HTTP error have the same status.
http_error-inj : (a b : ℕ) → http_error a ≡ http_error b → b ≡ a
unfolding code_of
http_error-inj a b e = sym (ap (λ r. code_of r a) e)

start_reply-refused :
    (available : Bool) (created : Option ℕ) (port ppid : ℕ) (host : Text) (app : App) (code : ℕ)
    → let (response, app') =
        start_reply (Server.start available created port ppid host app.server) port host app in
      response ≡ http_error code
      → IsUnchanged code app app'
        × (((code ≡ 503) × (available ≡ false))
            ⊎ ((code ≡ 409)
                × (available ≡ true)
                × (is_some (get port_eq port app.server.listeners) ≡ true)))
unfolding start_reply Server.start
start_reply-refused false created port ppid host app code = λ e.
    let same = http_error-inj 503 code e in
    (IsUnchanged-refl code app (rw same refl), inl (same, refl))
start_reply-refused true none port ppid host app code =
    elim (Bool-cases (is_some (get port_eq port app.server.listeners))) [
      | inl taken ↦ rw taken (λ e.
          let same = http_error-inj 409 code e in
          (IsUnchanged-refl code app (rw same refl), inr (same, refl, refl)))
      | inr free ↦ rw free (λ e. absurd (cc e))
    ]
start_reply-refused true (some sock) port ppid host app code =
    elim (Bool-cases (is_some (get port_eq port app.server.listeners))) [
      | inl taken ↦ rw taken (λ e.
          let same = http_error-inj 409 code e in
          (IsUnchanged-refl code app (rw same refl), inr (same, refl, refl)))
      | inr free ↦ rw free (λ e. absurd (cc e))
    ]

connect_reply-refused :
    (available : Bool) (created : Option ℕ) (host : Text) (port ppid : ℕ) (app : App) (code : ℕ)
    → let (response, app') =
        connect_reply (Client.connect available created host port ppid app.client) app in
      response ≡ http_error code
      → IsUnchanged code app app'
        × (((code ≡ 503) × (available ≡ false))
            ⊎ ((code ≡ 502) × (available ≡ true) × (created ≡ none)))
unfolding connect_reply Client.connect
connect_reply-refused false created host port ppid app code = λ e.
    let same = http_error-inj 503 code e in
    (IsUnchanged-refl code app (rw same refl), inl (same, refl))
connect_reply-refused true none host port ppid app code = λ e.
    let same = http_error-inj 502 code e in
    (
      record {
        same_world = refl;
        same_server = refl;
        same_conns = refl;
        same_closed = refl;
        counter = rw same refl;
      },
      inr (same, refl, refl),
    )
connect_reply-refused true (some sock) host port ppid app code = λ e. absurd (cc e)

after_peer-never :
    (env : Env) (raw : List ℕ) (peers : List Text) (w w' : World) (code : ℕ)
    → ((x : World) → to_peers env raw peers x ≢ failed (Main.http_error code) w')
    → (o : Server.Sending)
    → elim o [
      | Server.not_found ↦ to_peers env raw peers w
      | Server.sends conn bytes ↦ elim (env.send_fails conn bytes) [
        | true ↦ failed Main.server_error w
        | false ↦ to_peers env raw peers (put_out conn bytes w)
      ]
    ]
      ≢ failed (Main.http_error code) w'
after_peer-never env raw peers w w' code never Server.not_found = never w
after_peer-never env raw peers w w' code never (Server.sends conn bytes) =
    at (env.send_fails conn bytes)
  where
    at :
        (fails : Bool)
        → elim fails [
          | true ↦ failed Main.server_error w
          | false ↦ to_peers env raw peers (put_out conn bytes w)
        ]
          ≢ failed (Main.http_error code) w'
    at true e = absurd (cc e)
    at false e = never (put_out conn bytes w) e

-- A send to a list of peers fails with no HTTPException.
to_peers-never :
    (env : Env) (raw : List ℕ) (peers : List Text) (w w' : World) (code : ℕ)
    → to_peers env raw peers w ≢ failed (Main.http_error code) w'
unfolding to_peers
to_peers-never env raw [] w w' code e = absurd (cc e)
to_peers-never env raw (p ∷ peers) w w' code e =
    after_peer-never env raw peers w w' code (λ x. to_peers-never env raw peers x w' code)
      (Server.send_to_peer p raw env.server) e

reply_code : Attempt → ℕ
reply_code (failed (Main.http_error c) w) = c
reply_code _ = 0

world_of : World → Attempt → World
world_of d (failed reply w) = w
world_of d (went w) = w

refused_409 :
    (w w' : World) (code : ℕ)
    → failed (Main.http_error 409) w ≡ failed (Main.http_error code) w'
    → (w' ≡ w) × (code ≡ 409)
unfolding reply_code world_of
refused_409 w w' code e = (sym (ap (world_of w') e), sym (ap reply_code e))

after_connection-never :
    (fails : Bool) (w x w' : World) (code : ℕ)
    → (if fails then failed Main.server_error w else went x) ≢ failed (Main.http_error code) w'
after_connection-never true w x w' code e = absurd (cc e)
after_connection-never false w x w' code e = absurd (cc e)

-- A send on an association fails with 409, where the association is not connected.
on_connection-refused :
    (out : Outside) (app : App) (id : Text) (raw : List ℕ) (w' : World) (code : ℕ)
    → on_connection (env_of out app) (Client.send id raw app.client) app.world
      ≡ failed (Main.http_error code) w'
    → (w' ≡ app.world) × (code ≡ 409) × IsDown id app
unfolding on_connection Client.send env_of
on_connection-refused out app id raw w' code = at (get text_eq id app.client.conns) refl
  where
    in_state :
        (entry : Conn) (state : Client.State)
        → get text_eq id app.client.conns ≡ some entry
        → entry.state ≡ state
        → on_connection
            (env_of out app)
            (elim state [
              | Client.connected ↦ Client.sends entry.socket raw
              | Client.error ↦ Client.runtime_error
            ])
            app.world
          ≡ failed (Main.http_error code) w'
        → (w' ≡ app.world) × (code ≡ 409) × IsDown id app
    in_state entry Client.connected there is e =
        absurd (after_connection-never (out.send_fails entry.socket raw) app.world _ w' code e)
    in_state entry Client.error there is e =
        let (same, is_409) = refused_409 app.world w' code e in
        (same, is_409, inr (entry, there, is))

    at :
        (o : Option Conn)
        → get text_eq id app.client.conns ≡ o
        → on_connection (env_of out app) (Client.send_on o raw) app.world
          ≡ failed (Main.http_error code) w'
        → (w' ≡ app.world) × (code ≡ 409) × IsDown id app
    at none there e =
        let (same, is_409) = refused_409 app.world w' code e in (same, is_409, inl there)
    at (some entry) there e = in_state entry entry.state there refl e

send_out-refused :
    (out : Outside) (app : App) (id : Option Text) (raw : List ℕ) (w' : World) (code : ℕ)
    → send_out (env_of out app) id raw app.world ≡ failed (Main.http_error code) w'
    → (w' ≡ app.world)
      × (code ≡ 409)
      × (c : ℕ) × (name : Text) × (id ≡ some (c ∷ name))
      × IsDown (c ∷ name) app
unfolding send_out env_of
send_out-refused out app (some (c ∷ name)) raw w' code e =
    let (same, is_409, down) = on_connection-refused out app (c ∷ name) raw w' code e in
    (same, is_409, c, name, refl, down)
send_out-refused out app (some []) raw w' code e =
    absurd (to_peers-never (env_of out app) raw _ app.world w' code e)
send_out-refused out app none raw w' code e =
    absurd (to_peers-never (env_of out app) raw _ app.world w' code e)

log_sent-refused :
    (env : Env) (raw : List ℕ) (a : Attempt) (code : ℕ)
    → (log_sent env raw a).0 ≡ Main.http_error code
    → a ≡ failed (Main.http_error code) (log_sent env raw a).1
unfolding log_sent
log_sent-refused env raw (went w) code e = absurd (cc e)
log_sent-refused env raw (failed reply w) code e = ap (λ r. failed r w) e

http_code : Reply → ℕ
http_code (Main.http_error c) = c
http_code _ = 0

send_bytes-refused :
    (out : Outside) (body : SendBody) (app : App) (code : ℕ)
    → let sent = Main.send_bytes (env_of out app) body app.world in
      sent.0 ≡ Main.http_error code
      → (sent.1 ≡ app.world)
        × ((code == 502) ≡ false)
        × IsReason out app (Endpoints.send_bytes body) code
unfolding Main.send_bytes with_bytes http_code
send_bytes-refused out body app code = at (bytes_of env body body.template) refl
  where
    env : Env
    env = env_of out app

    at :
        (o : Option (List ℕ))
        → bytes_of env body body.template ≡ o
        → (with_bytes env body o app.world).0 ≡ Main.http_error code
        → ((with_bytes env body o app.world).1 ≡ app.world)
          × ((code == 502) ≡ false)
          × IsReason out app (Endpoints.send_bytes body) code
    at none built e =
        let is_400 : code ≡ 400 = sym (ap http_code e) in
        (refl, rw is_400 refl, inl (is_400, built))
    at (some raw) built e =
        let (same, is_409, c, id, named, down) =
          send_out-refused out app body.connection_id raw _ code
            (log_sent-refused env raw (send_out env body.connection_id raw app.world) code e) in
        (same, rw is_409 refl, inr (is_409, rw built refl, c, id, named, down))

send_response-refused :
    (reply : Reply) (code : ℕ)
    → send_response reply ≡ http_error code
    → reply ≡ Main.http_error code
unfolding send_response
send_response-refused (Main.sent_bytes n) code e = absurd (cc e)
send_response-refused (Main.http_error c) code e =
    ap Main.http_error (sym (http_error-inj c code e))
send_response-refused Main.server_error code e = absurd (cc e)

-- The endpoints that have no HTTPException.
pcap_response-never : (o : Option (List ℕ)) (code : ℕ) → pcap_response o ≢ http_error code
unfolding pcap_response
pcap_response-never none code e = absurd (cc e)
pcap_response-never (some bytes) code e = absurd (cc e)

stop_reply-never :
    (port : Option ℕ) (app : App) (code : ℕ) → (stop_reply port app).0 ≢ http_error code
unfolding stop_reply
stop_reply-never none app code e = absurd (cc e)
stop_reply-never (some port) app code e = absurd (cc e)

disconnect_reply-never :
    (id : Option Text) (app : App) (code : ℕ) → (disconnect_reply id app).0 ≢ http_error code
unfolding disconnect_reply
disconnect_reply-never none app code e = absurd (cc e)
disconnect_reply-never (some []) app code e = absurd (cc e)
disconnect_reply-never (some (c ∷ id)) app code e = absurd (cc e)

-- A request that is answered with the status of an HTTPException changes nothing and sends nothing,
-- but that a 502 spends the number of a connection. It is the start of a listener, with 503 without
-- SCTP and with 409 on a port that has one; a connect, with 503 without SCTP and with 502 where the
-- socket cannot be had; or a send, with 400 where no bytes can be made of its body, and with 409 where
-- they can and the association that it names is not there or not connected. No other request is
-- answered so.
pub handle-refused :
    (out : Outside) (request : Request) (app : App) (code : ℕ)
    → (handle out request app).0 ≡ http_error code
    → IsUnchanged code app (handle out request app).1 × IsReason out app request code
unfolding handle
handle-refused out (Endpoints.server_start port ppid host) app code =
    start_reply-refused out.sctp_available out.created port ppid host app code
handle-refused out (Endpoints.client_connect host port ppid) app code =
    connect_reply-refused out.sctp_available out.created host port ppid app code
handle-refused out (Endpoints.send_bytes body) app code = λ e.
    let (same, other, reason) =
      send_bytes-refused out body app code (send_response-refused _ code e) in
    (
      record {
        same_world = same;
        same_server = refl;
        same_conns = refl;
        same_closed = refl;
        counter = rw other refl;
      },
      reason,
    )
handle-refused out (Endpoints.export_pcap session_id) app code =
    λ e. absurd (pcap_response-never _ code e)
handle-refused out (Endpoints.server_stop port) app code =
    λ e. absurd (stop_reply-never port app code e)
handle-refused out (Endpoints.client_disconnect id) app code =
    λ e. absurd (disconnect_reply-never id app code e)
handle-refused out _ app code = λ e. absurd (cc e)
