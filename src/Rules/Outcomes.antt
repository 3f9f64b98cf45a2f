-- ===== src/Rules/Outcomes.antt =====
-- How the execution of a rule ends: after the count of the firing, or with a reply in the log.
use sctp_probe.Prelude.{
  ℕ, ◌≡◌, ◌⊎◌, refl, List, [], ◌∷◌, ◌++◌, Option, none, some, Text, arith, inl, inr, pos,
}
use sctp_probe.Table.{Row}
use sctp_probe.Store.{Store, Message, Rule, increment_fired}
use sctp_probe.Rules.{
  Env, World, execute, auto_reply, send_reply, after_delivery, log_reply, Delivery, delivered,
  unsent, raised,
}

abbrev pub fired_store : Row Rule → World → Store
fired_store rule w = increment_fired (pos rule.id) w.store

-- The world after a rule was counted in `w`: `w` itself, or that after a reply was logged in a world
-- with the same store.
abbrev pub Outcome : Env → Row Rule → Row Message → World → World → Type 0
Outcome env rule msg w after =
    (after ≡ w)
    ⊎ ((raw : List ℕ) × (sent : World) × (sent.store ≡ w.store)
        × (after ≡ log_reply env rule msg raw sent))

module _ (env : Env) (rule : Row Rule) (msg : Row Message) where
  after_delivery-Outcome :
      (raw : List ℕ) (d : Delivery) (w : World)
      → Outcome env rule msg w (after_delivery env rule msg raw d w)
  unfolding after_delivery
  after_delivery-Outcome raw (delivered socket bytes) w =
      inr (raw, record w { wire = w.wire ++ (socket, bytes) ∷ [] }, refl, refl)
  after_delivery-Outcome raw unsent w = inr (raw, w, refl, refl)
  after_delivery-Outcome raw raised w = inl refl

  send_reply-Outcome :
      (source : Option (Option Text)) (o : Option (List ℕ)) (w : World)
      → Outcome env rule msg w (send_reply env rule msg source o w)
  unfolding send_reply
  send_reply-Outcome source none w = inl refl
  send_reply-Outcome source (some raw) w = after_delivery-Outcome raw _ w

  auto_reply-Outcome :
      (source : Option (Option Text)) (t : Option Text) (w : World)
      → Outcome env rule msg w (auto_reply env rule msg source t w)
  unfolding auto_reply
  auto_reply-Outcome source (some (c ∷ t)) w = send_reply-Outcome source _ w
  auto_reply-Outcome source (some []) w = inl refl
  auto_reply-Outcome source none w = inl refl

  execute_cases :
      (source : Option (Option Text)) (w : World)
      → let counted = record w { store = fired_store rule w } in
        (execute env rule msg source w
          ≡ auto_reply env rule msg source rule.cols.reply_template counted)
        ⊎ (execute env rule msg source w ≡ counted)
  unfolding execute
  execute_cases source w = ground arith

  pub execute-Outcome :
      (source : Option (Option Text)) (w : World)
      → Outcome env rule msg
          (record w { store = fired_store rule w })
          (execute env rule msg source w)
  execute-Outcome source w = elim (execute_cases source w) [
    | inl e ↦ rw e (
        auto_reply-Outcome source rule.cols.reply_template
          (record w { store = fired_store rule w }))
    | inr e ↦ inl e
  ]
