-- ===== src/Client/Shutdown.antt =====
-- What `disconnect_all` leaves: the end of the program, and POST /api/client/disconnect without a name.
use sctp_probe.Prelude.{
  ℕ, ◌≡◌, refl, List, [], ◌∷◌, ◌++◌, none, some, Text, text_eq, text_eq_iff, subst,
}
use sctp_probe.Dict.{get, keys}
use sctp_probe.Dict.Drain.{Pool, IsDrained, remove_each, remove_all-IsDrained}
use sctp_probe.Client.{SctpClient, Conn, closed_by, disconnect, disconnect_each, disconnect_all}

conns_pool : Pool Text Conn SctpClient
unfolding disconnect
conns_pool = record {
  eq = text_eq;
  eq_iff = text_eq_iff;
  entries = λ c. c.conns;
  closed = λ c. c.closed;
  sockets = closed_by;
  remove = disconnect;
  entries_after = λ id c. refl;
  closed_after = λ id c. refl;
}

disconnect_each-remove_each :
    (ids : List Text) (c : SctpClient) → remove_each conns_pool ids c ≡ disconnect_each ids c
unfolding disconnect_each remove_each conns_pool
disconnect_each-remove_each [] c = refl
disconnect_each-remove_each (id ∷ ids) c = disconnect_each-remove_each ids (disconnect id c)

-- The name is free, and the socket of the association that had it is closed.
pub record IsLeft (id : Text) (c c' : SctpClient) : Type 0 where
  pub gone : get text_eq id c'.conns ≡ none
  pub closed :
      (e : Conn)
      → get text_eq id c.conns ≡ some e
      → (before behind : List ℕ) × (c'.closed ≡ before ++ (e.socket ∷ []) ++ behind)

pub disconnect_all-IsLeft : (c : SctpClient) (id : Text) → IsLeft id c (disconnect_all c)
unfolding disconnect_all closed_by conns_pool
disconnect_all-IsLeft c id =
    let (gone, closed) =
      subst (IsDrained conns_pool id c) (disconnect_each-remove_each (keys c.conns) c)
        (remove_all-IsDrained conns_pool c id) in
    record { gone = gone; closed = closed }
