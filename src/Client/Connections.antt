-- ===== src/Client/Connections.antt =====
-- A connection over its life: opened, sent on, failed, closed.
use sctp_probe.Prelude.{
  ℕ, suc, ◌≡◌, refl, true, List, some, Text, text_eq, text_eq_iff, arith, if◌then◌else◌,
}
use sctp_probe.Dict.{get, get-put, get-pop}
use sctp_probe.Client.{
  SctpClient, Conn, connected, error, connect, opened, conn_id, disconnect, send, send_on, sends,
  key_error, runtime_error, mark_error,
}

-- What `connect` returns is a name on which bytes go out on the new socket, and sends on any other
-- name end as they did before. The name is spent.
connect-send :
    (sock : ℕ) (host : Text) (port ppid : ℕ) (c : SctpClient)
    → let (r, c') = connect true (some sock) host port ppid c in
      (r ≡ opened (conn_id c.counter))
      × ((id : Text) (raw : List ℕ)
          → send id raw c'
            ≡ (if text_eq (conn_id c.counter) id then sends sock raw else send id raw c))
      × (c'.counter ≡ suc c.counter)
unfolding connect send send_on
connect-send sock host port ppid c = (
  refl,
  λ id raw.
      let e : Conn = record {
        socket = sock;
        host = host;
        port = port;
        ppid = ppid;
        state = connected;
      } in
      ground (arith, get-put text_eq text_eq_iff (conn_id c.counter) id e c.conns),
  refl,
)

-- After a disconnect a send on that name is a KeyError; other names are not touched.
disconnect-send :
    (gone id : Text) (raw : List ℕ) (c : SctpClient)
    → send id raw (disconnect gone c) ≡ (if text_eq gone id then key_error else send id raw c)
unfolding disconnect send send_on
disconnect-send gone id raw c = ground (arith, get-pop text_eq text_eq_iff gone id c.conns)

-- Once a read or a heartbeat has failed on a connection that is there, a send on it is a
-- RuntimeError; sends on other names end as before.
mark_error-send :
    (failed id : Text) (raw : List ℕ) (e : Conn) (c : SctpClient)
    → get text_eq failed c.conns ≡ some e
    → send id raw (mark_error failed c)
      ≡ (if text_eq failed id then runtime_error else send id raw c)
unfolding mark_error send send_on
mark_error-send failed id raw e c there =
    ground (arith, get-put text_eq text_eq_iff failed id (record e { state = error }) c.conns)

-- How a send on any name ends, after each thing that can become of an association: on the name that a
-- connect returns the bytes go out on the new socket; on a name that was disconnected it is a KeyError;
-- on one that was there and has failed it is a RuntimeError; on every other name it ends as before.
pub send_lem :
    (failed : Text) (e : Conn) (c : SctpClient)
    → get text_eq failed c.conns ≡ some e
    → (id : Text) (raw : List ℕ)
    → ((sock : ℕ) (host : Text) (port ppid : ℕ)
        → let (r, c') = connect true (some sock) host port ppid c in
          (r ≡ opened (conn_id c.counter))
          × (send id raw c'
              ≡ (if text_eq (conn_id c.counter) id then sends sock raw else send id raw c)))
      × ((gone : Text)
          → send id raw (disconnect gone c)
            ≡ (if text_eq gone id then key_error else send id raw c))
      × (send id raw (mark_error failed c)
          ≡ (if text_eq failed id then runtime_error else send id raw c))
send_lem failed e c there id raw = (
  λ sock host port ppid.
      let (named, sent, spent) = connect-send sock host port ppid c in (named, sent id raw),
  λ gone. disconnect-send gone id raw c,
  mark_error-send failed id raw e c there,
)
