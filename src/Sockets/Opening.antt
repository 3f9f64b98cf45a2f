-- ===== src/Sockets/Opening.antt =====
-- When opening a socket succeeds, and what the server and the client make of it; what closing calls.
use sctp_probe.Prelude.{
  ℕ, suc, ◌≡◌, ◌⊎◌, refl, Bool, true, false, List, [], ◌∷◌, ◌++◌, Option, none, some, Text, text_eq,
  text_eq_iff, text_eq_refl, All, arith, ap, ◌∙◌, inl, inr, Bool-cases, ◌==◌, if◌then◌else◌,
}
use sctp_probe.Dict.{get, get-put}
use sctp_probe.Server
use sctp_probe.Server.{SctpServer, port_eq}
use sctp_probe.Server.Peers.{listener, start_lem}
use sctp_probe.Client
use sctp_probe.Client.{SctpClient, conn_id}
use sctp_probe.Sockets.{
  SocketCall, shuts_down, closes, make_calls, creates, sets_reuse_addr, sets_timeout, binds,
  listens, socket_of, listener_calls, conn_calls, create_listener, create_conn, candidates,
  try_call, close_socket, close_each,
}

module _ (raises : SocketCall → Bool) where
  abbrev pub NoneRaises : List SocketCall → Type 0
  NoneRaises = All (λ c. raises c ≡ false)

  -- A first call of `cs` raises, and the calls up to it are `made`.
  pub record IsCutShort (cs made : List SocketCall) : Type 0 where
    pub before : List SocketCall
    pub failing : SocketCall
    pub after : List SocketCall
    pub split : cs ≡ before ++ failing ∷ after
    pub works : NoneRaises before
    pub fails : raises failing ≡ true
    pub are_made : made ≡ before ++ failing ∷ []

  IsCutShort-cons :
      (c : SocketCall) (cs made : List SocketCall)
      → raises c ≡ false
      → IsCutShort cs made
      → IsCutShort (c ∷ cs) (c ∷ made)
  IsCutShort-cons c cs made e v = record {
    before = c ∷ v.before;
    failing = v.failing;
    after = v.after;
    split = ap (λ l. c ∷ l) v.split;
    works = (e, v.works);
    fails = v.fails;
    are_made = ap (λ l. c ∷ l) v.are_made;
  }

  -- All the calls are made, or they stop at the first that raises.
  make_calls_cases :
      (cs : List SocketCall)
      → (NoneRaises cs × (make_calls raises cs ≡ (cs, true)))
        ⊎ ((made : List SocketCall) × IsCutShort cs made × (make_calls raises cs ≡ (made, false)))
  unfolding make_calls
  make_calls_cases [] = inl (tt, refl)
  make_calls_cases (c ∷ cs) = elim (Bool-cases (raises c)) [
    | inl e ↦ inr (
      c ∷ [],
      record {
        before = [];
        failing = c;
        after = cs;
        split = refl;
        works = tt;
        fails = e;
        are_made = refl;
      },
      rw e refl,
    )
    | inr e ↦ elim (make_calls_cases cs) [
      | inl (h, all) ↦ inl ((e, h), rw (e, all) refl)
      | inr (made, cut, short) ↦ inr (c ∷ made, IsCutShort-cons c cs made e cut, rw (e, short) refl)
    ]
  ]

  socket_of_cases :
      (sock : ℕ) (cs : List SocketCall)
      → let opened = socket_of sock (make_calls raises cs) in
        (NoneRaises cs × (opened ≡ (cs, some sock)))
        ⊎ ((made : List SocketCall) × IsCutShort cs made × (opened ≡ (made, none)))
  unfolding socket_of
  socket_of_cases sock cs = elim (make_calls_cases cs) [
    | inl (h, e) ↦ inl (h, rw e refl)
    | inr (made, cut, e) ↦ inr (made, cut, rw e refl)
  ]

  try_call_lem : (c : SocketCall) → try_call raises c ≡ c ∷ []
  unfolding try_call make_calls
  try_call_lem c = ground arith

  -- Whatever raises, closing shuts down and closes the socket and then the one that it wraps.
  pub close_socket_lem :
      (sock : ℕ) (raw_sock : Option ℕ)
      → close_socket raises sock raw_sock ≡ (elim raw_sock [
        | none ↦ shuts_down sock ∷ closes sock ∷ []
        | some raw ↦
            if raw == sock
            then shuts_down sock ∷ closes sock ∷ []
            else shuts_down sock ∷ closes sock ∷ shuts_down raw ∷ closes raw ∷ []
      ])
  unfolding close_socket close_each candidates
  close_socket_lem sock none = rw (try_call_lem (shuts_down sock), try_call_lem (closes sock)) refl
  close_socket_lem sock (some raw) = elim (Bool-cases (raw == sock)) [
    | inl e ↦ rw (e, try_call_lem (shuts_down sock), try_call_lem (closes sock)) refl
    | inr e ↦
        rw
          (
            e,
            try_call_lem (shuts_down sock),
            try_call_lem (closes sock),
            try_call_lem (shuts_down raw),
            try_call_lem (closes raw),
          )
          refl
  ]

  -- A start on a free port opens a socket with SO_REUSEADDR and a timeout, binds it to the address and
  -- listens on it with a backlog of 16, in this order and up to the first call that raises.
  -- If none does, the port has a listener with this socket and without peers; otherwise the start ends
  -- with the exception.
  pub start-create_listener :
      (sock port ppid : ℕ) (host : Text) (s : SctpServer)
      → listener port s ≡ none
      → let (calls, created) = create_listener raises sock port host in
        let result = Server.start true created port ppid host s in
        (NoneRaises (creates ∷ sets_reuse_addr ∷ sets_timeout ∷ binds host port ∷ listens 16 ∷ [])
          × (calls ≡ creates ∷ sets_reuse_addr ∷ sets_timeout ∷ binds host port ∷ listens 16 ∷ [])
          × (s' : SctpServer) × (result ≡ Server.started s')
          × (listener port s'
              ≡ some (record { socket = sock; ppid = ppid; bind_host = host; peers = [] })))
        ⊎ (IsCutShort
              (creates ∷ sets_reuse_addr ∷ sets_timeout ∷ binds host port ∷ listens 16 ∷ [])
              calls
            × (result ≡ Server.refused Server.StartError.os_error))
  unfolding create_listener
  start-create_listener sock port ppid host s free =
      elim (socket_of_cases sock (listener_calls port host)) [
        | inl (h, e) ↦
            let (s', started, there) = start_lem sock port ppid host s free in
            inl (h, ap (λ o. o.0) e, s', rw e started, there port ∙ ground arith)
        | inr (made, cut, e) ↦ inr (rw e cut, rw e (unfold Server.start in rw free refl))
      ]

  -- A connect makes the calls that open an association, up to the first that raises. If none does, the
  -- association is there under the next name, connected on this socket; otherwise the connect fails and
  -- only its number is spent.
  pub connect-create_conn :
      (sock port ppid : ℕ) (host : Text) (c : SctpClient)
      → let (calls, created) = create_conn raises sock host port in
        let (result, c') = Client.connect true created host port ppid c in
        (NoneRaises (conn_calls host port)
          × (calls ≡ conn_calls host port)
          × (result ≡ Client.opened (conn_id c.counter))
          × (get text_eq (conn_id c.counter) c'.conns
              ≡ some (record {
                socket = sock;
                host = host;
                port = port;
                ppid = ppid;
                state = Client.connected;
              })))
        ⊎ (IsCutShort (conn_calls host port) calls
            × (result ≡ Client.refused Client.ConnectError.os_error)
            × (c' ≡ record c { counter = suc c.counter }))
  unfolding create_conn Client.connect
  connect-create_conn sock port ppid host c = elim (socket_of_cases sock (conn_calls host port)) [
    | inl (h, e) ↦ inl (
      h,
      ap (λ o. o.0) e,
      rw e refl,
      rw e (
          get-put text_eq text_eq_iff (conn_id c.counter) (conn_id c.counter) _ c.conns
          ∙ rw (text_eq_refl (conn_id c.counter)) refl),
    )
    | inr (made, cut, e) ↦ inr (rw e cut, rw e refl, rw e refl)
  ]
