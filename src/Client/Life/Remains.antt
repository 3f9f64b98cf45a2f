-- ===== src/Client/Life/Remains.antt =====
-- What becomes of one association over any sequence of what can happen to a client.
use sctp_probe.Prelude.{
  ◌≡◌, ◌≢◌, ◌⊎◌, All, refl, true, false, List, [], ◌∷◌, Option, none, some, Text, text_eq,
  text_eq_iff, arith, inl, inr, Option-cases,
}
use sctp_probe.Dict.{get-put, get-pop}
use sctp_probe.Client.{
  SctpClient, Conn, connected, error, no_conns, conn_id, connect, disconnect, mark_error,
}
use sctp_probe.Client.Life.{
  Happening, connects, disconnects, reads, beats, step, run, conn, IsNumbered, turn-Marks,
  heartbeat-Marks, step-IsNumbered, run-IsNumbered,
}

-- An association goes on: as it was, or in the state ERROR from now on.
abbrev pub Remains : Conn → Option Conn → Type 0
Remains e o = (o ≡ some e) ⊎ (o ≡ some (record e { state = error }))

mark_error-Remains :
    (failed id : Text) (e : Conn) (c : SctpClient)
    → conn id c ≡ some e
    → Remains e (conn id (mark_error failed c))
unfolding mark_error
mark_error-Remains failed id e c there = elim (Option-cases (conn failed c)) [
  | inl none_there ↦ ground arith
  | inr (f, other) ↦ ground (
    arith,
    get-put text_eq text_eq_iff failed id (record f { state = error }) c.conns,
    text_eq_iff failed id,
  )
]

Marks-Remains :
    (failed id : Text) (x : Conn) (c c' : SctpClient)
    → (c' ≡ c) ⊎ (c' ≡ mark_error failed c)
    → conn id c ≡ some x
    → Remains x (conn id c')
Marks-Remains failed id x c c' (inl e) there = inl (rw e there)
Marks-Remains failed id x c c' (inr e) there = rw e (mark_error-Remains failed id x c there)

-- The call is not a disconnect of this connection.
abbrev pub Spares : Text → Happening → Type 0
Spares id (disconnects j) = j ≢ id
Spares id _ = Unit

step-Remains :
    (c : SctpClient) (h : Happening) (id : Text) (x : Conn)
    → IsNumbered c
    → Spares id h
    → conn id c ≡ some x
    → Remains x (conn id (step c h))
unfolding step connect disconnect
step-Remains c (connects false created host port ppid) id x v s there = inl there
step-Remains c (connects true none host port ppid) id x v s there = inl there
step-Remains c (connects true (some socket) host port ppid) id x v s there =
    let e : Conn = record {
      socket = socket;
      host = host;
      port = port;
      ppid = ppid;
      state = connected;
    } in
    ground (
      arith,
      get-put text_eq text_eq_iff (conn_id c.counter) id e c.conns,
      text_eq_iff (conn_id c.counter) id,
      v c.counter,
    )
step-Remains c (disconnects j) id x v s there =
    ground (arith, get-pop text_eq text_eq_iff j id c.conns, text_eq_iff j id)
step-Remains c (reads flag j r) id x v s there =
    Marks-Remains j id x c _ (turn-Marks flag j r c) there
step-Remains c (beats raises j) id x v s there =
    Marks-Remains j id x c _ (heartbeat-Marks raises j c) there

Remains-trans : (x y : Conn) (o : Option Conn) → Remains x (some y) → Remains y o → Remains x o
Remains-trans x y o h k = ground arith

run_after-Remains :
    (c : SctpClient) (hs : List Happening) (id : Text) (x : Conn)
    → IsNumbered c
    → All (Spares id) hs
    → conn id c ≡ some x
    → Remains x (conn id (run c hs))
unfolding run
run_after-Remains c [] id x v s there = inl there
run_after-Remains c (h ∷ hs) id x v s there = elim (step-Remains c h id x v s.0 there) [
  | inl same ↦ run_after-Remains (step c h) hs id x (step-IsNumbered c h v) s.1 same
  | inr failed ↦
      Remains-trans x (record x { state = error }) _ (inr refl)
        (run_after-Remains (step c h) hs id (record x { state = error }) (step-IsNumbered c h v) s.1
          failed)
]

-- An association that is not disconnected stays under its name with its socket and its address,
-- whatever else happens, and so does its state, but that it may become ERROR; from ERROR it does not
-- come back.
pub run-Remains :
    (before behind : List Happening) (id : Text) (x : Conn)
    → conn id (run no_conns before) ≡ some x
    → All (Spares id) behind
    → Remains x (conn id (run (run no_conns before) behind))
run-Remains before behind id x there s =
    run_after-Remains (run no_conns before) behind id x (run-IsNumbered before) s there
