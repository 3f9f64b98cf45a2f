-- ===== src/Main/Tasks/Heard.antt =====
-- What subscribers hear of the log while tasks overlap.
use sctp_probe.Prelude.{
  ℕ, zero, suc, ◌≡◌, refl, sym, ap, subst, ◌∙◌, List, [], ◌∷◌, ◌++◌, Option, none, some, Text, All,
  All-append, text_eq, codes, Bool-cases, inl, inr,
}
use mathlib.Core.List.{
  Mem, append-nil, append_assoc, mem-append_left, mem-append_right, mem-cons_self,
}
use sctp_probe.Table.{Row, insert}
use sctp_probe.Store.{Message, Rule, save_message, get_rules}
use sctp_probe.Store.History.{IsExtension}
use sctp_probe.Rules.{
  Env, World, Event, message, rule_fired, connection, Delivery, delivered, unsent, raised,
  broadcast, first_match,
}
use sctp_probe.Main.{on_message}
use sctp_probe.Main.Tasks.{
  Stage, reads_session, saves, announces, reads_rules, sleeps, replies, saves_reply,
  announces_reply, announces_firing, after_rules, after_encode, after_template, after_count,
  after_send, advance, advance_by,
}
use sctp_probe.Main.Tasks.Alone.{advance_by-on_message}
use sctp_probe.Main.Tasks.Logs.{advance-IsExtension}

-- The event is about a row of the log, if it is about a message.
abbrev pub IsLogged : List (Row Message) → Event → Type 0
IsLogged rows (message row) = Mem row rows
IsLogged rows (rule_fired rule_id msg_id) = Unit
IsLogged rows (connection event peer port) = Unit

abbrev pub AreLogged : List (Row Message) → List (List ℕ × Event) → Type 0
AreLogged rows = All (λ e. IsLogged rows e.1)

-- The log grows, and what subscribers hear in between is in it.
pub record Tells (w w' : World) : Type 0 where
  pub more : List (List ℕ × Event)
  pub heard : w'.received ≡ w.received ++ more
  pub are_logged : AreLogged w'.store.messages.rows more
  pub grows : IsExtension w.store.messages.rows w'.store.messages.rows

pub IsLogged-grows :
    (rows rows' : List (Row Message)) (e : Event)
    → IsExtension rows rows'
    → IsLogged rows e
    → IsLogged rows' e
IsLogged-grows rows rows' (message row) (more, e) h = rw e (mem-append_left more h)
IsLogged-grows rows rows' (rule_fired rule_id msg_id) x h = tt
IsLogged-grows rows rows' (connection event peer port) x h = tt

pub AreLogged-grows :
    (rows rows' : List (Row Message)) (es : List (List ℕ × Event))
    → IsExtension rows rows'
    → AreLogged rows es
    → AreLogged rows' es
AreLogged-grows rows rows' [] x h = tt
AreLogged-grows rows rows' (e ∷ es) x h =
    (IsLogged-grows rows rows' e.1 x h.0, AreLogged-grows rows rows' es x h.1)

pub Tells-trans : (u v w : World) → Tells u v → Tells v w → Tells u w
Tells-trans u v w a b = record {
  more = a.more ++ b.more;
  heard = b.heard ∙ ap (λ l. l ++ b.more) a.heard ∙ append_assoc u.received a.more b.more;
  are_logged =
      All-append _ a.more b.more
        (AreLogged-grows v.store.messages.rows w.store.messages.rows a.more b.grows a.are_logged)
        b.are_logged;
  grows =
      let (xs, e) = a.grows in
      let (ys, d) = b.grows in
      (xs ++ ys, d ∙ ap (λ l. l ++ ys) e ∙ append_assoc u.store.messages.rows xs ys);
}

-- Nothing is heard.
pub quiet :
    (w w' : World)
    → w'.received ≡ w.received
    → IsExtension w.store.messages.rows w'.store.messages.rows
    → Tells w w'
quiet w w' e x = record {
  more = [];
  heard = e ∙ sym (append-nil w.received);
  are_logged = tt;
  grows = x;
}

pub broadcast-Tells :
    (env : Env) (e : Event) (w : World)
    → IsLogged w.store.messages.rows e
    → Tells w (broadcast env e w)
unfolding broadcast
broadcast-Tells env e w h = record {
  more = _ ∷ [];
  heard = refl;
  are_logged = (h, tt);
  grows = ([], sym (append-nil w.store.messages.rows));
}

-- What a task is about to announce is in the log.
abbrev pub Holds : List (Row Message) → Stage → Type 0
Holds rows (announces msg) = Mem msg rows
Holds rows (announces_reply rule msg saved) = Mem saved rows
Holds rows _ = Unit

pub Holds-grows :
    (rows rows' : List (Row Message)) (t : Stage)
    → IsExtension rows rows'
    → Holds rows t
    → Holds rows' t
Holds-grows rows rows' (announces msg) (more, e) h = rw e (mem-append_left more h)
Holds-grows rows rows' (announces_reply rule msg saved) (more, e) h = rw e (mem-append_left more h)
Holds-grows rows rows' _ x h = tt

Holds-after_send :
    (rows : List (Row Message)) (rule : Row Rule) (msg : Row Message) (raw : List ℕ) (d : Delivery)
    (w : World)
    → Holds rows (after_send rule msg raw d w).0
      × ((after_send rule msg raw d w).1.received ≡ w.received)
unfolding after_send
Holds-after_send rows rule msg raw (delivered socket bytes) w = (tt, refl)
Holds-after_send rows rule msg raw unsent w = (tt, refl)
Holds-after_send rows rule msg raw raised w = (tt, refl)

Holds-after_rules :
    (rows : List (Row Message)) (msg : Row Message) (o : Option (Row Rule))
    → Holds rows (after_rules msg o)
unfolding after_rules
Holds-after_rules rows msg none = tt
Holds-after_rules rows msg (some rule) = tt

module _ (rows : List (Row Message)) (env : Env) (rule : Row Rule) (msg : Row Message) where
  Holds-after_encode : (o : Option (List ℕ)) → Holds rows (after_encode rule msg o)
  unfolding after_encode
  Holds-after_encode none = tt
  Holds-after_encode (some raw) = tt

  Holds-after_template : (t : Option Text) → Holds rows (after_template env rule msg t)
  unfolding after_template
  Holds-after_template none = tt
  Holds-after_template (some []) = tt
  Holds-after_template (some (c ∷ t)) = Holds-after_encode _

  Holds-after_count : Holds rows (after_count env rule msg)
  unfolding after_count
  Holds-after_count =
      let replying = Holds-after_template rule.cols.reply_template in
      let action = rule.cols.action in
      elim (Bool-cases (text_eq action (codes "drop"))) [
        | inl d ↦ rw d tt
        | inr d ↦ elim (Bool-cases (text_eq action (codes "log_only"))) [
          | inl l ↦ rw (d, l) tt
          | inr l ↦ elim (Bool-cases (text_eq action (codes "auto_reply"))) [
            | inl a ↦ rw (d, l, a) replying
            | inr a ↦ rw (d, l, a) tt
          ]
        ]
      ]

pub advance-Holds :
    (env : Env) (t : Stage) (w : World)
    → Holds w.store.messages.rows t
    → Holds (advance env t w).1.store.messages.rows (advance env t w).0
unfolding advance save_message insert
advance-Holds env (saves raw peer port session_id) w h = mem-append_right _ mem-cons_self
advance-Holds env (saves_reply rule msg raw session_id) w h = mem-append_right _ mem-cons_self
advance-Holds env (replies rule msg raw) w h = (Holds-after_send _ rule msg raw _ w).0
advance-Holds env (reads_rules msg) w h =
    Holds-after_rules _ msg (first_match msg.cols (get_rules w.store))
advance-Holds env (sleeps rule msg) w h = Holds-after_count _ env rule msg
advance-Holds env _ w h = tt

pub advance-Tells :
    (env : Env) (t : Stage) (w : World)
    → Holds w.store.messages.rows t
    → Tells w (advance env t w).1
unfolding advance
advance-Tells env (announces msg) w h = broadcast-Tells env (message msg) w h
advance-Tells env (announces_reply rule msg saved) w h = broadcast-Tells env (message saved) w h
advance-Tells env (announces_firing rule msg) w h =
    broadcast-Tells env (rule_fired rule.id msg.id) w tt
advance-Tells env (replies rule msg raw) w h =
    quiet w _ (Holds-after_send [] rule msg raw _ w).1
      (advance-IsExtension env (replies rule msg raw) w)
advance-Tells env t w h = quiet w _ refl (advance-IsExtension env t w)

-- What a handler does from end to end, it does as a task that runs alone.
advance_by-Tells :
    (n : ℕ) (env : Env) (t : Stage) (w : World)
    → Holds w.store.messages.rows t
    → Tells w (advance_by n env (t, w)).1
unfolding advance_by
advance_by-Tells zero env t w h = quiet w w refl ([], sym (append-nil w.store.messages.rows))
advance_by-Tells (suc n) env t w h =
    let (t', w') = advance env t w in
    Tells-trans w w' _ (advance-Tells env t w h)
      (advance_by-Tells n env t' w' (advance-Holds env t w h))

pub on_message-Tells :
    (env : Env) (raw : List ℕ) (peer : Text) (port : ℕ) (w : World)
    → Tells w (on_message env raw peer port w)
on_message-Tells env raw peer port w =
    subst (λ (p : Stage × World). Tells w p.1) (advance_by-on_message env raw peer port w)
      (advance_by-Tells 10 env (reads_session raw peer port) w tt)
