-- ===== src/Main/Tasks/Alone.antt =====
-- A task of `_on_message` that runs while nothing else does.
use sctp_probe.Prelude.{
  ℕ, ◌≡◌, refl, List, [], ◌∷◌, Option, none, some, Text, codes, text_eq, Bool-cases, Option-cases,
  inl, inr, pos,
}
use sctp_probe.Table.{Row}
use sctp_probe.Store.{Message, Rule, get_rules, increment_fired}
use sctp_probe.Rules.{
  Env, World, Delivery, delivered, unsent, raised, execute, auto_reply, send_reply, after_delivery,
  deliver, log_reply, first_match, evaluate,
}
use sctp_probe.Main.{receive, on_message}
use sctp_probe.Main.Tasks.{
  reads_session, reads_rules, sleeps, done, after_rules, after_encode, after_template, after_count,
  after_send, advance, advance_by,
}

ended_alone : (env : Env) (w : World) → advance_by 5 env (done, w) ≡ (done, w)
unfolding advance_by advance
ended_alone env w = refl

module _ (env : Env) (rule : Row Rule) (msg : Row Message) where
  sent_alone :
      (raw : List ℕ) (d : Delivery) (w : World)
      → advance_by 4 env (after_send rule msg raw d w) ≡ (done, after_delivery env rule msg raw d w)
  unfolding advance_by advance after_send after_delivery log_reply
  sent_alone raw (delivered socket bytes) w = refl
  sent_alone raw unsent w = refl
  sent_alone raw raised w = refl

  encoded_alone :
      (o : Option (List ℕ)) (w : World)
      → advance_by 5 env (after_encode rule msg o, w) ≡ (done, send_reply env rule msg none o w)
  unfolding advance_by advance after_encode send_reply
  encoded_alone none w = refl
  encoded_alone (some raw) w = sent_alone raw (deliver env msg.cols.peer_addr none raw) w

  replied_alone :
      (t : Option Text) (w : World)
      → advance_by 5 env (after_template env rule msg t, w)
        ≡ (done, auto_reply env rule msg none t w)
  unfolding advance_by advance after_template auto_reply
  replied_alone none w = refl
  replied_alone (some []) w = refl
  replied_alone (some (c ∷ t)) w = encoded_alone _ w

  executed_alone :
      (w : World) → advance_by 6 env (sleeps rule msg, w) ≡ (done, execute env rule msg none w)
  unfolding advance_by advance after_count execute
  executed_alone w =
      let w' = record w { store = increment_fired (pos rule.id) w.store } in
      let action = rule.cols.action in
      elim (Bool-cases (text_eq action (codes "drop"))) [
        | inl d ↦ rw d (ended_alone env w')
        | inr d ↦ elim (Bool-cases (text_eq action (codes "log_only"))) [
          | inl l ↦ rw (d, l) (ended_alone env w')
          | inr l ↦ elim (Bool-cases (text_eq action (codes "auto_reply"))) [
            | inl a ↦ rw (d, l, a) (replied_alone rule.cols.reply_template w')
            | inr a ↦ rw (d, l, a) (ended_alone env w')
          ]
        ]
      ]

evaluated_alone :
    (env : Env) (msg : Row Message) (w : World)
    → advance_by 7 env (reads_rules msg, w) ≡ (done, evaluate env msg none w)
unfolding advance_by advance after_rules evaluate
evaluated_alone env msg w = elim (Option-cases (first_match msg.cols (get_rules w.store))) [
  | inl e ↦ rw e (ended_alone env w)
  | inr (rule, e) ↦ rw e (executed_alone env rule msg w)
]

-- A task of a message that runs while nothing else does ends after ten turns, and it has then done
-- what `_on_message` does from end to end.
pub advance_by-on_message :
    (env : Env) (raw : List ℕ) (peer : Text) (port : ℕ) (w : World)
    → advance_by 10 env (reads_session raw peer port, w) ≡ (done, on_message env raw peer port w)
unfolding advance_by advance on_message receive
advance_by-on_message env raw peer port w =
    let (saved, w') = receive env raw peer port w in evaluated_alone env saved w'
