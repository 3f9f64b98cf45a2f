-- ===== src/Sockets.antt =====
-- The calls of sockets that sctp_probe/sctp_server.py and sctp_probe/sctp_client.py make to open and to
-- close one. Which calls raise is an argument.
pub mod Opening
use sctp_probe.Prelude.{
  ℕ, Bool, true, false, List, [], ◌∷◌, ◌++◌, Option, none, some, Text, if◌then◌else◌, ◌==◌,
}

-- A call of a method of a socket; `creates` is sctpsocket_tcp.
pub data SocketCall : Type 0 where
  creates : SocketCall
  sets_reuse_addr : SocketCall
  sets_timeout : SocketCall
  binds : Text → ℕ → SocketCall
  listens : ℕ → SocketCall
  connects : Text → ℕ → SocketCall
  shuts_down : ℕ → SocketCall
  closes : ℕ → SocketCall

-- The calls are made in order, up to the first that raises: which were made, and whether none raised.
unfoldable pub make_calls : (SocketCall → Bool) → List SocketCall → List SocketCall × Bool
make_calls raises [] = ([], true)
make_calls raises (c ∷ cs) =
    let rest = make_calls raises cs in if raises c then (c ∷ [], false) else (c ∷ rest.0, rest.1)

-- The socket `sock` is what the calls return, unless one of them raises.
unfoldable pub socket_of : ℕ → List SocketCall × Bool → List SocketCall × Option ℕ
socket_of sock (calls, true) = (calls, some sock)
socket_of sock (calls, false) = (calls, none)

abbrev pub listener_calls : ℕ → Text → List SocketCall
listener_calls port bind_host =
    creates ∷ sets_reuse_addr ∷ sets_timeout ∷ binds bind_host port ∷ listens 16 ∷ []

-- _create_listener
unfoldable pub create_listener : (SocketCall → Bool) → ℕ → ℕ → Text → List SocketCall × Option ℕ
create_listener raises sock port bind_host =
    socket_of sock (make_calls raises (listener_calls port bind_host))

abbrev pub conn_calls : Text → ℕ → List SocketCall
conn_calls host port = creates ∷ sets_timeout ∷ connects host port ∷ sets_timeout ∷ []

-- _create_conn
unfoldable pub create_conn : (SocketCall → Bool) → ℕ → Text → ℕ → List SocketCall × Option ℕ
create_conn raises sock host port = socket_of sock (make_calls raises (conn_calls host port))

-- The socket, and its `_sk` where it has one that is another object.
unfoldable pub candidates : ℕ → Option ℕ → List ℕ
candidates sock none = sock ∷ []
candidates sock (some raw_sock) = if raw_sock == sock then sock ∷ [] else sock ∷ raw_sock ∷ []

-- `try: call` with `except Exception: pass`, where the flag says whether the call raises.
unfoldable pub try_call : (SocketCall → Bool) → SocketCall → List SocketCall
try_call raises call = (make_calls raises (call ∷ [])).0

close_each : (SocketCall → Bool) → List ℕ → List SocketCall
close_each raises [] = []
close_each raises (c ∷ cs) =
    try_call raises (shuts_down c) ++ try_call raises (closes c) ++ close_each raises cs

-- _close_socket
unfoldable pub close_socket : (SocketCall → Bool) → ℕ → Option ℕ → List SocketCall
unfolding close_each try_call candidates
close_socket raises sock raw_sock = close_each raises (candidates sock raw_sock)
