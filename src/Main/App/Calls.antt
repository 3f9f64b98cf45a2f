-- ===== src/Main/App/Calls.antt =====
-- What the application does to its store is a sequence of calls of the store.
use sctp_probe.Prelude.{
  ℕ, ◌≡◌, refl, List, [], ◌∷◌, ◌++◌, Option, none, some, Text, inl, inr, ap, ◌∙◌, sym, pos,
}
use sctp_probe.Table.{Row}
use sctp_probe.Store
use sctp_probe.Store.{Message, Rule}
use sctp_probe.Store.History.{
  Call, init, saves_message, saves_rule, deletes_rule, deletes_rules, deletes_messages, resets,
  fires, run, step, KeepsLog,
}
use sctp_probe.Decoder.{decode}
use sctp_probe.Rules.{Env, World, execute, evaluate, log_reply, outbound}
use sctp_probe.Rules.Outcomes.{execute-Outcome}
use sctp_probe.Rules.Matching.{evaluate-IsFirst}
use sctp_probe.Main.{
  SendBody, Attempt, went, failed, inbound, on_message, receive, send_bytes, with_bytes, bytes_of,
  log_sent, sent_message, put_out,
}
use sctp_probe.Main.Attempts.{Ends, send_out-Ends}

-- The new store is that after some calls, which do not clear the log except perhaps if `C` holds.
pub record Acts (C : Type 0) (s s' : Store.Store) : Type 0 where
  pub made : List Call
  pub runs : s' ≡ run s made
  pub keeps : ¬ C → KeepsLog made

run-append : (s : Store.Store) (xs ys : List Call) → run s (xs ++ ys) ≡ run (run s xs) ys
unfolding run
run-append s [] ys = refl
run-append s (x ∷ xs) ys = run-append (step s x) xs ys

KeepsLog-append : (xs ys : List Call) → KeepsLog xs → KeepsLog ys → KeepsLog (xs ++ ys)
KeepsLog-append [] ys h k = k
KeepsLog-append (deletes_messages ∷ xs) ys h k = absurd h
KeepsLog-append (init u ∷ xs) ys h k = KeepsLog-append xs ys h k
KeepsLog-append (saves_message t m ∷ xs) ys h k = KeepsLog-append xs ys h k
KeepsLog-append (saves_rule r ∷ xs) ys h k = KeepsLog-append xs ys h k
KeepsLog-append (deletes_rule i ∷ xs) ys h k = KeepsLog-append xs ys h k
KeepsLog-append (deletes_rules ∷ xs) ys h k = KeepsLog-append xs ys h k
KeepsLog-append (resets u ∷ xs) ys h k = KeepsLog-append xs ys h k
KeepsLog-append (fires i ∷ xs) ys h k = KeepsLog-append xs ys h k

module _ {C : Type 0} where
  pub Acts-refl : (s : Store.Store) → Acts C s s
  Acts-refl s = record { made = []; runs = unfold run in refl; keeps = λ h. tt }

  pub Acts-trans : (s t u : Store.Store) → Acts C s t → Acts C t u → Acts C s u
  Acts-trans s t u a b = record {
    made = a.made ++ b.made;
    runs = b.runs ∙ ap (λ x. run x b.made) a.runs ∙ sym (run-append s a.made b.made);
    keeps = λ h. KeepsLog-append a.made b.made (a.keeps h) (b.keeps h);
  }

  -- One call that does not clear the log.
  pub one_call : (s : Store.Store) (c : Call) → KeepsLog (c ∷ []) → Acts C s (step s c)
  unfolding run
  one_call s c h = record { made = c ∷ []; runs = refl; keeps = λ n. h }

  log_reply-Acts :
      (env : Env) (rule : Row Rule) (msg : Row Message) (raw : List ℕ) (w : World)
      → Acts C w.store (log_reply env rule msg raw w).store
  unfolding log_reply step
  log_reply-Acts env rule msg raw w =
      one_call w.store
        (saves_message env.now (
          outbound env (Store.get_session_id env.uuid w.store) rule.id msg.cols
            (decode env.py raw)))
        tt

  execute-Acts :
      (env : Env) (rule : Row Rule) (msg : Row Message) (source : Option (Option Text)) (w : World)
      → Acts C w.store (execute env rule msg source w).store
  unfolding step
  execute-Acts env rule msg source w =
      let counted = one_call w.store (fires (pos rule.id)) tt in
      elim (execute-Outcome env rule msg source w) [
        | inl e ↦ rw e counted
        | inr (raw, sent, same, e) ↦
            rw e
              (Acts-trans w.store _ _ counted (rw (← same) (log_reply-Acts env rule msg raw sent)))
      ]

  pub evaluate-Acts :
      (env : Env) (msg : Row Message) (source : Option (Option Text)) (w : World)
      → Acts C w.store (evaluate env msg source w).store
  evaluate-Acts env msg source w = elim (evaluate-IsFirst env msg source w) [
    | inl (rule, f, e) ↦ rw e (execute-Acts env rule msg source w)
    | inr (h, e) ↦ rw e (Acts-refl w.store)
  ]

  pub on_message-Acts :
      (env : Env) (raw : List ℕ) (peer : Text) (port : ℕ) (w : World)
      → Acts C w.store (on_message env raw peer port w).store
  unfolding on_message receive step
  on_message-Acts env raw peer port w =
      let (saved, w') = receive env raw peer port w in
      Acts-trans w.store w'.store _
        (one_call w.store
          (saves_message env.now
            (inbound env (Store.get_session_id env.uuid w.store) (decode env.py raw) peer port))
          tt)
        (evaluate-Acts env saved none w')

  log_sent-Acts :
      (env : Env) (raw : List ℕ) (w : World) (a : Attempt)
      → Ends w (λ x. x.store ≡ w.store) a
      → Acts C w.store (log_sent env raw a).1.store
  unfolding log_sent step
  log_sent-Acts env raw w (failed reply w') (same, _) = rw same (Acts-refl w.store)
  log_sent-Acts env raw w (went w') same =
      rw same
        (one_call w.store (saves_message env.now (sent_message env w.store (decode env.py raw))) tt)

  pub send_bytes-Acts :
      (env : Env) (body : SendBody) (w : World) → Acts C w.store (send_bytes env body w).1.store
  unfolding send_bytes put_out
  send_bytes-Acts env body w = at (bytes_of env body body.template)
    where
      at : (o : Option (List ℕ)) → Acts C w.store (with_bytes env body o w).1.store
      at none = unfold with_bytes in Acts-refl w.store
      at (some raw) =
          unfold with_bytes in
          log_sent-Acts env raw w _ (
            send_out-Ends env w (λ x. x.store ≡ w.store) (λ socket bytes x i. i) refl
              body.connection_id raw)
