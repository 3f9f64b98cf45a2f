-- ===== src/Main/Attempts.antt =====
-- The second block of POST /api/send: what the world is when it has ended or failed.
use sctp_probe.Prelude.{
  ℕ, ◌≡◌, ◌⊎◌, refl, Bool, true, false, List, [], ◌∷◌, Option, none, some, Text, inl, inr,
  if◌then◌else◌,
}
use sctp_probe.Server
use sctp_probe.Client
use sctp_probe.Rules.{Env, World}
use sctp_probe.Main.{
  server_error, http_error, Attempt, went, failed, put_out, to_peers, on_connection, send_out,
}

-- The world at the end has the property `I`; a failure is no HTTP error, or it is a 409 that leaves the
-- world `w`.
abbrev pub Ends : World → (World → Type 0) → Attempt → Type 0
Ends w I (went w') = I w'
Ends w I (failed reply w') = I w' × ((reply ≡ server_error) ⊎ ((w' ≡ w) × (reply ≡ http_error 409)))

-- `I` holds of a world, and still holds when bytes go out.
module _ (env : Env) (w : World) (I : World → Type 0)
    (kept : (socket : ℕ) (bytes : List ℕ) (x : World) → I x → I (put_out socket bytes x)) where
  after_send :
      (socket : ℕ) (bytes : List ℕ) (x : World) (fails : Bool)
      → (rest : Attempt) → I x
      → Ends w I rest
      → Ends w I (elim fails [ true ↦ failed server_error x | false ↦ rest ])
  after_send socket bytes x true rest i h = (i, inl refl)
  after_send socket bytes x false rest i h = h

  after_peer :
      (raw : List ℕ) (peers : List Text) (x : World) (o : Server.Sending)
      → I x
      → ((y : World) → I y → Ends w I (to_peers env raw peers y))
      → Ends w I (elim o [
        | Server.not_found ↦ to_peers env raw peers x
        | Server.sends conn bytes ↦ elim (env.send_fails conn bytes) [
          | true ↦ failed server_error x
          | false ↦ to_peers env raw peers (put_out conn bytes x)
        ]
      ])
  after_peer raw peers x Server.not_found i h = h x i
  after_peer raw peers x (Server.sends conn bytes) i h =
      after_send conn bytes x (env.send_fails conn bytes) _ i
        (h (put_out conn bytes x) (kept conn bytes x i))

  to_peers-Ends :
      (raw : List ℕ) (peers : List Text) (x : World) → I x → Ends w I (to_peers env raw peers x)
  unfolding to_peers
  to_peers-Ends raw [] x i = i
  to_peers-Ends raw (p ∷ peers) x i =
      after_peer raw peers x (Server.send_to_peer p raw env.server) i (to_peers-Ends raw peers)

  on_connection-Ends : (r : Client.SendResult) → I w → Ends w I (on_connection env r w)
  unfolding on_connection
  on_connection-Ends (Client.sends socket raw) i = at (env.send_fails socket raw)
    where
      at :
          (fails : Bool)
          → Ends w I (if fails then failed server_error w else went (put_out socket raw w))
      at true = (i, inl refl)
      at false = kept socket raw w i
  on_connection-Ends Client.key_error i = (i, inr (refl, refl))
  on_connection-Ends Client.runtime_error i = (i, inr (refl, refl))

  pub send_out-Ends : I w → (id : Option Text) (raw : List ℕ) → Ends w I (send_out env id raw w)
  unfolding send_out
  send_out-Ends i (some (c ∷ id)) raw = on_connection-Ends _ i
  send_out-Ends i (some []) raw = to_peers-Ends raw _ w i
  send_out-Ends i none raw = to_peers-Ends raw _ w i
