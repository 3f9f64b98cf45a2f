-- ===== src/Server/Receive.antt =====
-- _handle_conn of sctp_probe/sctp_server.py: the receive loop of one accepted connection. What recv
-- gives in each turn is an argument.
pub mod Deliveries
use sctp_probe.Prelude.{
  ℕ, ◌≡◌, refl, Bool, true, false, List, [], ◌∷◌, ◌++◌, Text, arith, if◌then◌else◌,
}
use sctp_probe.Server.{SctpServer, conn_ended}

-- Bytes, none of them at the end of the stream; socket.timeout; or another exception.
pub data Recv : Type 0 where
  bytes : List ℕ → Recv
  timeout : Recv
  other_exception : Recv

-- What a turn of the loop does.
pub data Turn : Type 0 where
  goes_on : Turn
  calls : List ℕ → Turn
  breaks : Turn

unfoldable pub turn : Recv → Turn
turn timeout = goes_on
turn other_exception = breaks
turn (bytes []) = breaks
turn (bytes (b ∷ raw)) = calls (b ∷ raw)

-- The bytes of the calls of `on_message`, and whether the loop has ended.
unfoldable pub receive_loop : List Recv → List (List ℕ) × Bool
receive_loop [] = ([], false)
receive_loop (r ∷ rs) =
    let rest = receive_loop rs in
    elim (turn r) [ goes_on ↦ rest | calls raw ↦ (raw ∷ rest.0, rest.1) | breaks ↦ ([], true) ]

-- The loop and its `finally` block, which runs when the loop has ended.
unfoldable pub handle_conn : ℕ → Text → ℕ → List Recv → SctpServer → List (List ℕ) × SctpServer
handle_conn port peer_addr conn rs s =
    let (raws, ended) = receive_loop rs in
    (raws, if ended then conn_ended port peer_addr conn s else s)
