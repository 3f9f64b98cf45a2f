-- ===== src/Ws.antt =====
-- sctp_probe/ws.py: the fan-out hub. A WebSocket is a number. `gone` says on which sockets send_text
-- raises WebSocketDisconnect or RuntimeError; it raises nothing else.
use sctp_probe.Prelude.{
  ℕ, ◌≡◌, refl, Bool, true, false, not, List, [], ◌∷◌, ◌++◌, arith, filter, ◌==◌, ==_iff,
  if◌then◌else◌, All, filter-All, Bool-cases, inl, inr, ap, ◌∙◌,
}

abbrev pub WsHub : Type 0
WsHub = List ℕ

unfoldable pub connect : ℕ → WsHub → WsHub
connect ws subscribers = subscribers ++ ws ∷ []

-- list.remove takes the first one; a ValueError is ignored.
unfoldable pub disconnect : ℕ → WsHub → WsHub
disconnect ws [] = []
disconnect ws (x ∷ xs) = if x == ws then xs else x ∷ disconnect ws xs

disconnect_each : List ℕ → WsHub → WsHub
disconnect_each [] hub = hub
disconnect_each (ws ∷ dead) hub = disconnect_each dead (disconnect ws hub)

-- Who got the payload, and who is left.
unfoldable pub broadcast : (ℕ → Bool) → WsHub → List ℕ × WsHub
unfolding disconnect_each disconnect
broadcast gone hub = (filter (λ ws. not (gone ws)) hub, disconnect_each (filter gone hub) hub)

disconnect_self : (x : ℕ) (hub : WsHub) → disconnect x (x ∷ hub) ≡ hub
unfolding disconnect
disconnect_self x hub = ground arith

module _ (gone : ℕ → Bool) where
  keeps_live :
      (x : ℕ) (dead hub : List ℕ)
      → gone x ≡ false
      → All (λ ws. gone ws ≡ true) dead
      → disconnect_each dead (x ∷ hub) ≡ x ∷ disconnect_each dead hub
  unfolding disconnect_each disconnect
  keeps_live x [] hub live h = refl
  keeps_live x (d ∷ dead) hub live h = elim (Bool-cases (x == d)) [
    | inl same ↦ absurd (cc (ap gone ((==_iff x d).0 same), live, h.0))
    | inr other ↦ rw other (keeps_live x dead (disconnect d hub) live h.1)
  ]

  left_live :
      (hub : WsHub) → disconnect_each (filter gone hub) hub ≡ filter (λ ws. not (gone ws)) hub
  unfolding disconnect_each disconnect
  left_live [] = refl
  left_live (x ∷ hub) = elim (Bool-cases (gone x)) [
    | inl dead ↦
        rw dead (ap (disconnect_each (filter gone hub)) (disconnect_self x hub) ∙ left_live hub)
    | inr live ↦ rw live (
        keeps_live x (filter gone hub) hub live (filter-All gone hub)
        ∙ ap (λ l. x ∷ l) (left_live hub))
  ]

  -- A broadcast reaches exactly the subscribers whose socket is alive, in the order in which they
  -- subscribed, and exactly these stay subscribed: a dead one is removed as often as it was subscribed,
  -- and no live one is.
  pub broadcast_lem :
      (hub : WsHub)
      → let live = filter (λ ws. not (gone ws)) hub in
        ((broadcast gone hub).0 ≡ live) × ((broadcast gone hub).1 ≡ live)
  unfolding broadcast
  broadcast_lem hub = (refl, left_live hub)
