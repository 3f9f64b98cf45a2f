-- ===== src/Rules/Matching.antt =====
-- When a rule matches a message, and which rule is taken.
use sctp_probe.Prelude.{
  ◌≡◌, refl, ◌↔◌, ◌⊎◌, inl, inr, true, false, List, [], ◌∷◌, ◌++◌, Option, none, some, Text, codes,
  text_eq_iff, opt_text_eq_iff, arith, pos, ◌<ℤ◌, All, Bool-cases, ap,
}
use sctp_probe.Table.{Row}
use sctp_probe.Store.{Message, Rule, get_rules}
use sctp_probe.Rules.{
  Env, World, matches, first_match, execute, evaluate, execute_found, filter_fails,
}

-- A filter that is not set lets everything pass.
abbrev pub Passes : Option Text → Option Text → Type 0
Passes filter value = (filter ≡ none) ⊎ (filter ≡ value)

pub record IsMatch (r : Rule) (m : Message) : Type 0 where
  pub is_active : r.active ≡ true
  pub same_pdu_type : (r.match_pdu_type ≡ codes "*") ⊎ (m.pdu_type ≡ some r.match_pdu_type)
  pub same_mi : Passes r.match_message_identifier m.message_identifier
  pub same_sn : Passes r.match_serial_number m.serial_number
  pub same_peer : Passes r.match_peer_addr m.peer_addr
  pub not_spent : (r.count ≡ pos 0) ⊎ (pos r.fired <ℤ r.count)

filter_fails_iff : (f v : Option Text) → (filter_fails f v ≡ false) ↔ Passes f v
unfolding filter_fails
filter_fails_iff none v = ground arith
filter_fails_iff (some f) v = ground (arith, opt_text_eq_iff (some f) v)

-- `_match` holds of a rule and a message exactly when the rule is active, each of its four filters is
-- unset or equal to the message's value, and its count is 0 or above what it has fired. (The PDU type
-- filter is unset if it is "*"; a negative count is never above.)
pub matches_iff : (r : Rule) (m : Message) → (matches r m ≡ true) ↔ IsMatch r m
unfolding matches
matches_iff r m =
    let any = text_eq_iff r.match_pdu_type (codes "*") in
    let pdu = opt_text_eq_iff (some r.match_pdu_type) m.pdu_type in
    let mi = filter_fails_iff r.match_message_identifier m.message_identifier in
    let sn = filter_fails_iff r.match_serial_number m.serial_number in
    let peer = filter_fails_iff r.match_peer_addr m.peer_addr in
    (
      λ h. record {
        is_active = ground arith;
        same_pdu_type = ground arith;
        same_mi = mi.0 (ground arith);
        same_sn = sn.0 (ground arith);
        same_peer = peer.0 (ground arith);
        not_spent = ground arith;
      },
      λ v. ground arith,
    )

abbrev NoneMatch : Message → List (Row Rule) → Type 0
NoneMatch m = All (λ r. ¬ IsMatch r.cols m)

not-IsMatch : (r : Rule) (m : Message) → matches r m ≡ false → ¬ IsMatch r m
not-IsMatch r m h v = cc ((matches_iff r m).1 v, h)

-- The first rule of the list that matches.
pub record IsFirst (m : Message) (rs : List (Row Rule)) (rule : Row Rule) : Type 0 where
  pub before : List (Row Rule)
  pub behind : List (Row Rule)
  pub split : rs ≡ before ++ rule ∷ behind
  pub none_before : All (λ r. ¬ IsMatch r.cols m) before
  pub does_match : IsMatch rule.cols m

first_match_cases :
    (m : Message) (rs : List (Row Rule))
    → ((rule : Row Rule) × (first_match m rs ≡ some rule) × IsFirst m rs rule)
      ⊎ ((first_match m rs ≡ none) × NoneMatch m rs)
unfolding first_match
first_match_cases m [] = inr (refl, tt)
first_match_cases m (r ∷ rs) = elim (Bool-cases (matches r.cols m)) [
  | inl hit ↦ inl (
    r,
    rw hit,
    record {
      before = [];
      behind = rs;
      split = refl;
      none_before = tt;
      does_match = (matches_iff r.cols m).0 hit;
    },
  )
  | inr miss ↦ elim (first_match_cases m rs) [
    | inl (rule, e, f) ↦ inl (
      rule,
      rw miss e,
      record {
        before = r ∷ f.before;
        behind = f.behind;
        split = ap (λ l. r ∷ l) f.split;
        none_before = (not-IsMatch r.cols m miss, f.none_before);
        does_match = f.does_match;
      },
    )
    | inr (e, h) ↦ inr (rw miss e, (not-IsMatch r.cols m miss, h))
  ]
]

-- First match wins. Either some active rule, in the order of the keys, is the first that matches the
-- message, and then this rule and no other is executed; or none matches, and nothing changes.
pub evaluate-IsFirst :
    (env : Env) (msg : Row Message) (source : Option (Option Text)) (w : World)
    → ((rule : Row Rule) × IsFirst msg.cols (get_rules w.store) rule
        × (evaluate env msg source w ≡ execute env rule msg source w))
      ⊎ (NoneMatch msg.cols (get_rules w.store) × (evaluate env msg source w ≡ w))
unfolding evaluate
evaluate-IsFirst env msg source w = elim (first_match_cases msg.cols (get_rules w.store)) [
  | inl (rule, e, f) ↦ inl (rule, f, ap (λ o. execute_found env o msg source w) e)
  | inr (e, h) ↦ inr (h, ap (λ o. execute_found env o msg source w) e)
]
