-- ===== src/Main/App/Answers.antt =====
-- A message that a rule answers, from the recv to the reply on the same connection.
use sctp_probe.Prelude.{ℕ, ◌≡◌, refl, List, [], ◌∷◌, ◌++◌, none, some, Text, codes, ap, ◌∙◌, false}
use mathlib.Core.List.{append_assoc}
use sctp_probe.Table.{Row, insert, select}
use sctp_probe.Store.{Message, Rule, get_rules, save_message, message_columns}
use sctp_probe.Base64.{b64encode}
use sctp_probe.Encoder.{encode, no_kwargs}
use sctp_probe.Server.{peer_conn}
use sctp_probe.Server.Receive.{bytes, turn}
use sctp_probe.Rules.{
  Env, World, first_match, request_of, execute, evaluate, execute_found, broadcast,
}
use sctp_probe.Rules.Replies.{reply_sent}
use sctp_probe.Main.{receive, on_message}
use sctp_probe.Main.App.{App, Outside, env_of}
use sctp_probe.Main.App.Steps.{step, receives, after_turn, call_on_message}

-- A rule takes a message that comes in, and has a reply for it that the network takes.
pub record IsAnswered (out : Outside) (app : App) (saved : Row Message) (conn : ℕ) (peer : Text)
    (rule : Row Rule) (reply : List ℕ) : Type 0 where
  pub taken : first_match saved.cols (get_rules app.world.store) ≡ some rule
  pub automatic : rule.cols.action ≡ codes "auto_reply"
  pub first : ℕ
  pub name : Text
  pub template : rule.cols.reply_template ≡ some (first ∷ name)
  pub encoded : encode out.py (first ∷ name) (some (request_of saved.cols)) no_kwargs ≡ some reply
  pub connected : peer_conn peer app.server.listeners ≡ some conn
  pub works : out.send_fails conn reply ≡ false

evaluate-taken :
    (env : Env) (saved : Row Message) (rule : Row Rule) (w : World)
    → first_match saved.cols (get_rules w.store) ≡ some rule
    → evaluate env saved none w ≡ execute env rule saved none w
unfolding evaluate
evaluate-taken env saved rule w e = ap (λ o. execute_found env o saved none w) e

-- If recv gives bytes on the connection of a peer and the first rule that matches their message has an
-- automatic reply, the reply goes out on the connection of the peer, once, and two rows are added to
-- the log: that of the message, and behind it an outbound one with the rule and the bytes of the reply.
pub receives_answered :
    (out : Outside) (app : App) (port : ℕ) (p : ℕ) (peer : Text) (conn b : ℕ) (raw : List ℕ)
    (rule : Row Rule) (reply : List ℕ)
    → let saved = (receive (env_of out app) (b ∷ raw) (p ∷ peer) port app.world).0 in
      IsAnswered out app saved conn (p ∷ peer) rule reply
      → let w' = (step app (receives out port (p ∷ peer) conn (bytes (b ∷ raw)))).world in
        (w'.wire ≡ app.world.wire ++ (conn, reply) ∷ [])
        × ((answer : Row Message) × (w'.store.messages.rows
              ≡ app.world.store.messages.rows ++ saved ∷ answer ∷ [])
            × (answer.cols.direction ≡ codes "outbound")
            × (answer.cols.rule_id ≡ some rule.id)
            × (answer.cols.peer_addr ≡ some (p ∷ peer))
            × (answer.cols.raw_bytes_b64 ≡ b64encode reply))
unfolding step turn after_turn call_on_message on_message receive save_message insert broadcast
    get_rules select env_of message_columns
receives_answered out app port p peer conn b raw rule reply a =
    let env = env_of out app in
    let (saved, w) = receive env (b ∷ raw) (p ∷ peer) port app.world in
    let (wire, logged) =
      reply_sent env rule saved none w a.first a.name reply p peer a.automatic a.template a.encoded
        refl conn a.connected a.works in
    rw (evaluate-taken env saved rule w a.taken) (
      wire,
      (
        logged.out,
        logged.at_end ∙ append_assoc app.world.store.messages.rows (saved ∷ []) (logged.out ∷ []),
        logged.is_outbound,
        logged.by_rule,
        logged.to_peer,
        logged.bytes,
      ),
    )
