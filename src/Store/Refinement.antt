-- ===== src/Store/Refinement.antt =====
-- The tables of the store against its specification.
use sctp_probe.Prelude.{
  ℕ, zero, suc, ◌+◌, ◌-◌, ◌≤◌, ◌≡◌, refl, List, [], ◌∷◌, ◌++◌, none, ℤ, pos, negsuc, length,
  length-append, take, drop, filter, true, arith, ap, sym, ◌∙◌, not, Bool, Bool-cases, leb, inl,
  inr,
}
use sctp_probe.Table.{Row, select, insert, delete, update}
use sctp_probe.Table.Find.{find, find-filter}
use sctp_probe.Store
use sctp_probe.Store.{
  Message, Rule, message_columns, rule_columns, get_messages, clamp_limit, where_clause,
  direction_clause, pdu_type_clause, delete_rule, no_tables,
}
use sctp_probe.Store.History.{
  Call, init, saves_message, saves_rule, deletes_rule, deletes_rules, deletes_messages, resets,
  fires, IsStore, run-IsStore, step-IsStore,
}
use sctp_probe.Store.History
use sctp_probe.Store.RuleTable.{find_rule, save_rule_lem, increment_fired_lem}
use sctp_probe.Store.Spec
use sctp_probe.Store.Spec.{Spec, numbered, page, page_size}

-- A store holds what a state of the specification says.
pub record Refines (s : Store.Store) (a : Spec) : Type 0 where
  pub same_log : s.messages.rows ≡ numbered a.forgotten a.log
  pub next_key : s.messages.seq ≡ a.forgotten + length a.log
  pub same_rules : (k : ℕ) → find_rule k s ≡ a.rule_at k
  pub next_rule : s.rules.seq ≡ a.last_rule
  pub same_session : s.session ≡ a.session

numbered-append :
    (n : ℕ) (ms : List Message) (m : Message)
    → numbered n (ms ++ m ∷ [])
      ≡ numbered n ms ++ record { id = suc (n + length ms); cols = m } ∷ []
numbered-append n [] m = ground arith
numbered-append n (x ∷ ms) m =
    ap (λ l. record { id = suc n; cols = x } ∷ l)
      (numbered-append (suc n) ms m
        ∙ ap (λ (k : ℕ). numbered (suc n) ms ++ record { id = suc k; cols = m } ∷ []) (omega arith))

filter_all {ℓ} : {A : Type ℓ} (rs : List (Row A)) → filter (λ _. not true) rs ≡ []
filter_all [] = refl
filter_all (r ∷ rs) = filter_all rs

step-Refines :
    (s : Store.Store) (a : Spec) (c : Call)
    → IsStore s
    → Refines s a
    → Refines (History.step s c) (Spec.step a c)
unfolding History.step
step-Refines s a (init uuid) v h = record {
  same_log = h.same_log;
  next_key = h.next_key;
  same_rules = h.same_rules;
  next_rule = h.next_rule;
  same_session = rw h.same_session;
}
step-Refines s a (saves_message now m) v h = record {
  same_log =
      unfold insert in
      ap (λ rs. rs ++ record { id = suc s.messages.seq; cols = message_columns now m } ∷ [])
        h.same_log
      ∙ ap
          (λ (k : ℕ).
            numbered a.forgotten a.log ++ record { id = suc k; cols = message_columns now m } ∷ [])
          h.next_key
      ∙ sym (numbered-append a.forgotten a.log (message_columns now m));
  next_key =
      unfold insert in omega (arith, h.next_key, length-append a.log (message_columns now m ∷ []));
  same_rules = h.same_rules;
  next_rule = h.next_rule;
  same_session = h.same_session;
}
step-Refines s a (saves_rule r) v h = record {
  same_log = h.same_log;
  next_key = h.next_key;
  same_rules = λ k.
      unfold Store.save_rule insert in
      ground (arith, (save_rule_lem r s v.rules_IsTable).0 k, h.same_rules k, h.next_rule);
  next_rule = unfold insert in ap suc h.next_rule;
  same_session = h.same_session;
}
step-Refines s a (deletes_rule i) v h = record {
  same_log = h.same_log;
  next_key = h.next_key;
  same_rules = λ k. unfold delete in (find-filter i k s.rules.rows ∙ rw (h.same_rules k));
  next_rule = unfold delete in h.next_rule;
  same_session = h.same_session;
}
step-Refines s a deletes_rules v h = record {
  same_log = h.same_log;
  next_key = h.next_key;
  same_rules = λ k. unfold delete find in rw (filter_all s.rules.rows);
  next_rule = unfold delete in h.next_rule;
  same_session = h.same_session;
}
step-Refines s a deletes_messages v h = record {
  same_log = unfold delete in filter_all s.messages.rows;
  next_key = unfold delete in omega (arith, h.next_key);
  same_rules = h.same_rules;
  next_rule = h.next_rule;
  same_session = h.same_session;
}
step-Refines s a (resets new_id) v h = record {
  same_log = h.same_log;
  next_key = h.next_key;
  same_rules = λ k. unfold delete find in rw (filter_all s.rules.rows);
  next_rule = unfold delete in h.next_rule;
  same_session = refl;
}
step-Refines s a (fires i) v h = record {
  same_log = h.same_log;
  next_key = h.next_key;
  same_rules = λ k. increment_fired_lem i s k ∙ rw (h.same_rules k);
  next_rule = unfold update in h.next_rule;
  same_session = h.same_session;
}

run_after-Refines :
    (s : Store.Store) (a : Spec) (cs : List Call)
    → IsStore s
    → Refines s a
    → Refines (History.run s cs) (Spec.run a cs)
unfolding History.run
run_after-Refines s a [] v h = h
run_after-Refines s a (c ∷ cs) v h =
    run_after-Refines (History.step s c) (Spec.step a c) cs (step-IsStore s c v)
      (step-Refines s a c v h)

-- After any calls on a new database the store holds what the specification says after the same calls:
-- the log is the list of the messages saved since it was last cleared, their keys count on from the
-- number of messages cleared so far, and under each key stands the rule that the specification has
-- there.
pub run-Refines : (cs : List Call) → Refines (History.run no_tables cs) (Spec.run Spec.empty cs)
run-Refines cs = run_after-Refines no_tables Spec.empty cs no_tables-IsStore (record {
  same_log = refl;
  next_key = refl;
  same_rules = λ k. unfold find in refl;
  next_rule = refl;
  same_session = refl;
})
  where
    no_tables-IsStore : IsStore no_tables
    no_tables-IsStore = omega arith

abbrev behind : ℕ → Row Message → Bool
behind k = where_clause (pos k) none none

kept_all : (k n : ℕ) (ms : List Message) → k ≤ n → filter (behind k) (numbered n ms) ≡ numbered n ms
unfolding where_clause direction_clause pdu_type_clause
kept_all k n [] h = refl
kept_all k n (m ∷ ms) h = ground (arith, kept_all k (suc n) ms)

dropped_seen :
    (k n seen : ℕ) (ms : List Message)
    → k ≡ n + seen
    → filter (behind k) (numbered n ms) ≡ numbered (n + seen) (drop seen ms)
unfolding where_clause direction_clause pdu_type_clause
dropped_seen k n zero ms h =
    kept_all k n ms (omega arith) ∙ ap (λ (j : ℕ). numbered j ms) (omega arith)
dropped_seen k n (suc seen) [] h = refl
dropped_seen k n (suc seen) (m ∷ ms) h =
    let rest = dropped_seen k (suc n) seen ms (omega arith) in
    let shift : numbered (suc n + seen) (drop seen ms) ≡ numbered (n + suc seen) (drop seen ms) =
      ap (λ (j : ℕ). numbered j (drop seen ms)) (omega arith) in
    ground (arith, rest, shift)

get_messages-numbered :
    (k n : ℕ) (ms : List Message)
    → filter (behind k) (numbered n ms) ≡ numbered (n + (k - n)) (drop (k - n) ms)
get_messages-numbered k n ms = elim (Bool-cases (leb k n)) [
  | inl old ↦
      let z : k - n ≡ 0 = ground arith in
      rw z (kept_all k n ms (ground arith) ∙ ap (λ (j : ℕ). numbered j ms) (omega arith))
  | inr new ↦ dropped_seen k n (k - n) ms (ground arith)
]

clamp_limit-page_size : (limit : ℤ) → clamp_limit limit ≡ page_size limit
unfolding clamp_limit
clamp_limit-page_size (pos n) = ground arith
clamp_limit-page_size (negsuc n) = ground arith

-- What GET /api/messages answers, without filters, to a client that has seen the keys up to `since_id`:
-- of the messages that were saved since the log was last cleared those behind these keys, at most as
-- many as the limit, which counts from 1 to 1000.
pub get_messages-page :
    (cs : List Call) (since_id : ℕ) (limit : ℤ)
    → get_messages (pos since_id) none none limit (History.run no_tables cs)
      ≡ page since_id limit (Spec.run Spec.empty cs)
unfolding get_messages select
get_messages-page cs since_id limit =
    let a = Spec.run Spec.empty cs in
    ap (λ rs. take (clamp_limit limit) (filter (behind since_id) rs)) (run-Refines cs).same_log
    ∙ ap (take (clamp_limit limit)) (get_messages-numbered since_id a.forgotten a.log)
    ∙ ap
        (λ (n : ℕ).
          take n (
            numbered (a.forgotten + (since_id - a.forgotten))
              (drop (since_id - a.forgotten) a.log)))
        (clamp_limit-page_size limit)
