-- ===== src/Rules/Replies.antt =====
-- Automatic replies: what is sent, and what the log says was sent.
use sctp_probe.Prelude.{
  ℕ, ◌≡◌, refl, true, false, List, [], ◌∷◌, ◌++◌, Option, none, some, Text, codes, text_eq,
  text_eq_iff, inl, inr, arith, ap, ◌∙◌, sym, if◌then◌else◌, ◌≢◌, ◌⊎◌, subst,
}
use sctp_probe.Table.{Row}
use sctp_probe.Store.{Message, Rule, increment_fired}
use sctp_probe.Encoder.{encode, no_kwargs}
use sctp_probe.Encoder.Echo.{encode-none}
use sctp_probe.Encoder.Templates.{reply_of}
use sctp_probe.Server
use sctp_probe.Server.{peer_conn}
use sctp_probe.Rules.{
  Env, World, execute, auto_reply, send_reply, after_delivery, deliver, request_of, Delivery,
  delivered, unsent, raised,
}
use sctp_probe.Rules.Outcomes.{fired_store}
use sctp_probe.Rules.Effects.{IsLogged, log_reply-IsLogged, wire-log_reply}

-- Nothing but the count of firings changed: not the log, not the wire, nothing broadcast.
pub record IsSilent (w w' : World) : Type 0 where
  pub same_log : w'.store.messages ≡ w.store.messages
  pub same_wire : w'.wire ≡ w.wire
  pub same_hub : w'.hub ≡ w.hub
  pub none_received : w'.received ≡ w.received

module _ (env : Env) (rule : Row Rule) (msg : Row Message) (source : Option (Option Text))
    (w : World) where
  abbrev counted : World
  counted = record w { store = fired_store rule w }

  execute-auto_reply :
      rule.cols.action ≡ codes "auto_reply"
      → execute env rule msg source w
        ≡ auto_reply env rule msg source rule.cols.reply_template counted
  unfolding execute text_eq
  execute-auto_reply a = rw a

  counted-IsSilent : IsSilent w counted
  unfolding increment_fired
  counted-IsSilent = record {
    same_log = refl;
    same_wire = refl;
    same_hub = refl;
    none_received = refl;
  }

  IsSilent-actions :
      (w' : World)
      → execute env rule msg source w ≡ w'
      → w' ≡ counted
      → IsSilent w (execute env rule msg source w)
  IsSilent-actions w' e f = subst (IsSilent w) (sym (e ∙ f)) counted-IsSilent

  -- A rule whose action is drop or log_only, or is none that the engine knows, sends nothing, logs
  -- nothing and broadcasts nothing.
  execute-IsSilent :
      rule.cols.action ≢ codes "auto_reply" → IsSilent w (execute env rule msg source w)
  unfolding execute
  execute-IsSilent a =
      IsSilent-actions counted (ground (arith, text_eq_iff rule.cols.action (codes "auto_reply")))
        refl

  -- An automatic reply without a template, with a timeout template or with a template name that is
  -- unknown sends nothing, logs nothing and broadcasts nothing.
  pub no_template-IsSilent :
      (t : Text)
      → rule.cols.action ≡ codes "auto_reply"
      → (rule.cols.reply_template ≡ none) ⊎ (rule.cols.reply_template ≡ some t)
      → reply_of t ≡ none
      → IsSilent w (execute env rule msg source w)
  unfolding auto_reply send_reply
  no_template-IsSilent t a chosen unknown =
      subst (IsSilent w) (sym (execute-auto_reply a ∙ stays chosen)) counted-IsSilent
    where
      with_name :
          (t : Text) → reply_of t ≡ none → auto_reply env rule msg source (some t) counted ≡ counted
      with_name [] u = refl
      with_name (c ∷ t) u =
          ap (λ o. send_reply env rule msg source o counted)
            (encode-none env.py (c ∷ t) (some (request_of msg.cols)) no_kwargs u)

      stays :
          (rule.cols.reply_template ≡ none) ⊎ (rule.cols.reply_template ≡ some t)
          → auto_reply env rule msg source rule.cols.reply_template counted ≡ counted
      stays (inl e) = ap (λ o. auto_reply env rule msg source o counted) e
      stays (inr e) = ap (λ o. auto_reply env rule msg source o counted) e ∙ with_name t unknown

module _ (env : Env) (rule : Row Rule) (msg : Row Message) (source : Option (Option Text))
    (w : World) (c : ℕ) (t : Text) (raw : List ℕ) (p : ℕ) (peer : Text)
    (automatic : rule.cols.action ≡ codes "auto_reply")
    (template : rule.cols.reply_template ≡ some (c ∷ t))
    (encoded : encode env.py (c ∷ t) (some (request_of msg.cols)) no_kwargs ≡ some raw)
    (from_peer : msg.cols.peer_addr ≡ some (p ∷ peer)) where
  abbrev ready : World
  ready = record w { store = fired_store rule w }

  to_delivery :
      (d : Delivery)
      → deliver env (some (p ∷ peer)) source raw ≡ d
      → execute env rule msg source w ≡ after_delivery env rule msg raw d ready
  unfolding auto_reply send_reply
  to_delivery d e =
      execute-auto_reply env rule msg source w automatic
      ∙ ap (λ o. auto_reply env rule msg source o ready) template
      ∙ ap (λ o. send_reply env rule msg source o ready) encoded
      ∙ ap (λ a. after_delivery env rule msg raw (deliver env a source raw) ready) from_peer
      ∙ ap (λ x. after_delivery env rule msg raw x ready) e

  conn_of : Option ℕ
  conn_of = peer_conn (p ∷ peer) env.server.listeners

  delivery_of :
      (o : Option ℕ) (d : Delivery)
      → conn_of ≡ o
      → (elim o [
        | none ↦ unsent
        | some conn ↦ if env.send_fails conn raw then raised else delivered conn raw
      ])
        ≡ d
      → deliver env (some (p ∷ peer)) source raw ≡ d
  unfolding conn_of deliver Server.send_to_peer
  delivery_of none d e h = ground arith
  delivery_of (some conn) d e h = ground arith

  -- An automatic reply that the encoder gives bytes for, to a message of a connected peer, goes out
  -- on the connection of that peer, once, if the send does not raise, and one outbound row with the
  -- rule and the bytes is added to the log.
  pub reply_sent :
      (conn : ℕ)
      → peer_conn (p ∷ peer) env.server.listeners ≡ some conn
      → env.send_fails conn raw ≡ false
      → ((execute env rule msg source w).wire ≡ w.wire ++ (conn, raw) ∷ [])
        × IsLogged rule msg raw w.store.messages (execute env rule msg source w).store.messages
  unfolding after_delivery conn_of increment_fired
  reply_sent conn found works =
      let d = delivery_of (some conn) (delivered conn raw) found (rw works) in
      let w' = record ready { wire = ready.wire ++ (conn, raw) ∷ [] } in
      rw (to_delivery (delivered conn raw) d)
        (wire-log_reply env rule msg raw w', log_reply-IsLogged env rule msg raw w')

  -- If the send of an automatic reply to a connected peer raises, nothing goes out, and nothing is
  -- logged or broadcast.
  pub reply_failed :
      (conn : ℕ)
      → peer_conn (p ∷ peer) env.server.listeners ≡ some conn
      → env.send_fails conn raw ≡ true
      → IsSilent w (execute env rule msg source w)
  unfolding after_delivery conn_of
  reply_failed conn found fails =
      let d = delivery_of (some conn) raised found (rw fails) in
      rw (to_delivery raised d) (counted-IsSilent env rule msg source w)

  -- An automatic reply that the encoder gives bytes for, to a peer that no listener has, such as the
  -- far end of an outgoing association, is not sent at all, and still is written to the log as an
  -- outbound message with its bytes.
  pub reply-IsLogged_unsent :
      peer_conn (p ∷ peer) env.server.listeners ≡ none
      → ((execute env rule msg source w).wire ≡ w.wire)
        × IsLogged rule msg raw w.store.messages (execute env rule msg source w).store.messages
  unfolding after_delivery conn_of increment_fired
  reply-IsLogged_unsent missing =
      let d = delivery_of none unsent missing refl in
      rw (to_delivery unsent d)
        (wire-log_reply env rule msg raw ready, log_reply-IsLogged env rule msg raw ready)
