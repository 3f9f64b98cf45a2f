-- ===== src/Server/Life/Sound.antt =====
-- The connection that a listener has for a peer was not closed.
use sctp_probe.Prelude.{
  ℕ, ==_iff, ◌≡◌, ◌≢◌, refl, false, All, All-append, List, [], ◌∷◌, ◌++◌, Option, none, some, Text,
  text_eq, text_eq_iff, arith, ap, ◌∙◌, sym, subst, inl, inr, Bool-cases, Option-cases,
}
use sctp_probe.Dict.{get, pop, get-put}
use sctp_probe.Server.{SctpServer, Listener, port_eq, no_listeners, conn_ended, with_listener}
use sctp_probe.Dict.Entries.{AllEntries, AllEntries-weaken, AllEntries-pop, AllEntries-get}
use sctp_probe.Server.Peers.{listener, listener-with_listener, closed-with_listener}
use sctp_probe.Server.Life.{
  Happening, starts, stops, accepts, ends, step, run, IsOpen, Fits, AllFit, IsSound,
}
use sctp_probe.Server.Life.Keeps.{start-IsSound, stop-IsSound, accept-IsSound}

abbrev drops : Text → Listener → Listener
drops peer x = record x { peers = pop text_eq peer x.peers }

module _ (port : ℕ) (peer : Text) (conn : ℕ) (s : SctpServer) where
  ended : SctpServer
  ended = conn_ended port peer conn s

  ended-IsOpen : (c : ℕ) → conn ≢ c → IsOpen c s → IsOpen c ended
  unfolding ended conn_ended
  ended-IsOpen c apart still =
      let grown : ended.closed ≡ s.closed ++ conn ∷ [] =
        ap (λ l. l ++ conn ∷ []) (closed-with_listener (drops peer) port s) in
      subst (All (λ x. x ≢ c)) (sym grown)
        (All-append (λ x. x ≢ c) s.closed (conn ∷ []) still (apart, tt))

  listener-ended :
      (x : Listener) → listener port s ≡ some x → listener port ended ≡ some (drops peer x)
  unfolding ended conn_ended
  listener-ended x there = listener-with_listener (drops peer) port x s there

  listener-ended-none : listener port s ≡ none → listener port ended ≡ none
  unfolding ended conn_ended with_listener
  listener-ended-none gone = ground (arith, gone)

  listener-ended_other : (j : ℕ) → port_eq port j ≡ false → listener j ended ≡ listener j s
  unfolding ended conn_ended with_listener
  listener-ended_other j other = elim (Option-cases (listener port s)) [
    | inl gone ↦ ground (arith, gone)
    | inr (x, there) ↦
        ground (arith, there, get-put port_eq ==_iff port j (drops peer x) s.listeners)
  ]

  module _ (owner : ℕ → Option (ℕ × Text)) (mine : owner conn ≡ some (port, peer))
      (v : IsSound owner s) where
    abbrev Sound : ℕ → Listener → Type 0
    Sound j e =
        (owner e.socket ≡ none)
        × AllEntries (λ q c. (owner c ≡ some (j, q)) × IsOpen c ended) e.peers

    drops-Sound : (x : Listener) → listener port s ≡ some x → Sound port (drops peer x)
    drops-Sound x there =
        let (sock, peers) = v port x there in
        (
          sock,
          AllEntries-weaken _ _
              (λ q c h.
                let apart : conn ≢ c = λ same.
                  let named : q ≡ peer = cc (mine, same, h.0.0) in
                  ground (arith, h.1, (text_eq_iff q peer).1 named) in
                (h.0.0, ended-IsOpen c apart h.0.1))
              (pop text_eq peer x.peers) (AllEntries-pop text_eq text_eq_iff _ peer x.peers peers),
        )

    here-Sound :
        (e : Listener) (o : Option Listener)
        → listener port s ≡ o
        → listener port ended ≡ some e
        → Sound port e
    here-Sound e none there found = absurd (cc (listener-ended-none there, found))
    here-Sound e (some x) there found =
        let same : drops peer x ≡ e = cc (listener-ended x there, found) in
        subst (Sound port) same (drops-Sound x there)

    other-Sound :
        (j : ℕ) (e : Listener) → port_eq port j ≡ false → listener j s ≡ some e → Sound j e
    other-Sound j e other there =
        let (sock, peers) = v j e there in
        (
          sock,
          AllEntries-weaken _ _
              (λ q c h.
                let apart : conn ≢ c = λ same.
                  let place : port ≡ j = cc (mine, same, h.0) in ground (arith, other, place) in
                (h.0, ended-IsOpen c apart h.1))
              e.peers peers,
        )

    ended-IsSound : IsSound owner ended
    ended-IsSound j e found = elim (Bool-cases (port_eq port j)) [
      | inl same ↦
          let place : port ≡ j = (==_iff port j).0 same in
          subst (λ i. Sound i e) place
            (here-Sound e (listener port s) refl
              (subst (λ i. listener i ended ≡ some e) (sym place) found))
      | inr other ↦ other-Sound j e other (sym (listener-ended_other j other) ∙ found)
    ]

step-IsSound :
    (owner : ℕ → Option (ℕ × Text)) (s : SctpServer) (h : Happening)
    → Fits owner s h
    → IsSound owner s
    → IsSound owner (step s h)
unfolding step ended
step-IsSound owner s (starts available created port ppid host) f v =
    start-IsSound owner s available created port ppid host f v
step-IsSound owner s (stops port) f v = stop-IsSound owner s port v
step-IsSound owner s (accepts port peer conn) f v = accept-IsSound owner s port peer conn f v
step-IsSound owner s (ends port peer conn) f v = ended-IsSound port peer conn s owner f v

run_after-IsSound :
    (owner : ℕ → Option (ℕ × Text)) (s : SctpServer) (hs : List Happening)
    → AllFit owner s hs
    → IsSound owner s
    → IsSound owner (run s hs)
unfolding run
run_after-IsSound owner s [] f v = v
run_after-IsSound owner s (h ∷ hs) f v =
    run_after-IsSound owner (step s h) hs f.1 (step-IsSound owner s h f.0 v)

-- Whatever happens to a server, the connection that a listener has for a peer is the one that was
-- accepted for this peer on this port, and it has not been closed. (The network yields no socket on
-- accept that was closed before, each connection's socket belongs to one port and one peer, and none of
-- them is a listening socket.)
pub run-IsOpen :
    (owner : ℕ → Option (ℕ × Text)) (hs : List Happening) (port : ℕ) (e : Listener) (peer : Text)
    (conn : ℕ)
    → AllFit owner no_listeners hs
    → listener port (run no_listeners hs) ≡ some e
    → get text_eq peer e.peers ≡ some conn
    → (owner conn ≡ some (port, peer)) × IsOpen conn (run no_listeners hs)
run-IsOpen owner hs port e peer conn f there found =
    let (sock, peers) = run_after-IsSound owner no_listeners hs f empty port e there in
    AllEntries-get text_eq text_eq_iff _ peer conn e.peers peers found
  where
    empty : IsSound owner no_listeners
    empty j x there =
        let free : listener j no_listeners ≡ none = unfold get in refl in absurd (cc (there, free))
