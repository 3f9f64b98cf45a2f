-- ===== src/Rules/Effects.antt =====
-- What executing a rule does to the rules, to the log and on the wire.
use sctp_probe.Prelude.{
  ℕ, ◌≡◌, refl, ◌∙◌, List, [], ◌∷◌, ◌++◌, Option, some, Text, codes, pos, ap, inl, inr,
}
use sctp_probe.Table.{Row, Table, insert}
use sctp_probe.Store.{
  Store, Message, Rule, increment_fired, get_session_id, save_message, message_columns,
}
use sctp_probe.Base64.{b64encode}
use sctp_probe.Decoder.{DecodedMessage, decode}
use sctp_probe.Decoder.Raw.{decode-IsTold}
use sctp_probe.Rules.Outcomes.{execute-Outcome}
use sctp_probe.Rules.{Env, World, execute, log_reply, outbound}

-- One row was added to the log: outbound, to the peer of the message, by this rule, with these bytes.
pub record IsLogged (rule : Row Rule) (msg : Row Message) (raw : List ℕ) (old new : Table Message)
    : Type 0 where
  pub out : Row Message
  pub at_end : new.rows ≡ old.rows ++ out ∷ []
  pub is_outbound : out.cols.direction ≡ codes "outbound"
  pub by_rule : out.cols.rule_id ≡ some rule.id
  pub to_peer : out.cols.peer_addr ≡ msg.cols.peer_addr
  pub bytes : out.cols.raw_bytes_b64 ≡ b64encode raw

b64-decode : (env : Env) (raw : List ℕ) → (decode env.py raw).raw_bytes_b64 ≡ b64encode raw
b64-decode env raw = elim (decode-IsTold env.py raw) [
  | inl e ↦ ap (λ (d : DecodedMessage). d.raw_bytes_b64) e
  | inr (_, _, _, e) ↦ e
]

module _ (env : Env) (rule : Row Rule) (msg : Row Message) where
  pub log_reply-IsLogged :
      (raw : List ℕ) (w : World)
      → IsLogged rule msg raw w.store.messages (log_reply env rule msg raw w).store.messages
  unfolding log_reply save_message insert message_columns
  log_reply-IsLogged raw w = record {
    out =
        (save_message env.now
          (outbound env (get_session_id env.uuid w.store) rule.id msg.cols (decode env.py raw))
          w.store).0;
    at_end = refl;
    is_outbound = refl;
    by_rule = refl;
    to_peer = refl;
    bytes = b64-decode env raw;
  }

  pub wire-log_reply : (raw : List ℕ) (w : World) → (log_reply env rule msg raw w).wire ≡ w.wire
  unfolding log_reply
  wire-log_reply raw w = refl

  rules-log_reply :
      (raw : List ℕ) (w : World) → (log_reply env rule msg raw w).store.rules ≡ w.store.rules
  unfolding log_reply save_message
  rules-log_reply raw w = refl

  -- A rule that is executed counts one firing of itself and touches no rule otherwise: whatever its
  -- action, with or without a template, whether or not a reply could be encoded or sent.
  pub rules-execute :
      (source : Option (Option Text)) (w : World)
      → (execute env rule msg source w).store.rules ≡ (increment_fired (pos rule.id) w.store).rules
  rules-execute source w = elim (execute-Outcome env rule msg source w) [
    | inl e ↦ ap (λ (v : World). v.store.rules) e
    | inr (raw, sent, same, e) ↦
        ap (λ (v : World). v.store.rules) e
        ∙ rules-log_reply raw sent
        ∙ ap (λ (t : Store). t.rules) same
  ]
