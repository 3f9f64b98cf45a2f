-- ===== src/Main/Tasks/Handled.antt =====
-- A message that arrives is logged and handled, whatever runs in between.
use sctp_probe.Prelude.{
  ℕ, ◌≤◌, ◌≡◌, refl, sym, ap, ◌∙◌, subst, List, [], ◌∷◌, ◌++◌, some, Text, codes, arith, All,
  length, get_elem?, get_elem?-length-append,
}
use mathlib.Core.List.{append-nil, append_assoc}
use sctp_probe.Table.{Row, insert}
use sctp_probe.Store.{Message, save_message, message_columns}
use sctp_probe.Store.History.{IsExtension}
use sctp_probe.Base64.{b64decode}
use sctp_probe.Base64.RoundTrip.{AreBytes}
use sctp_probe.Decoder.{decode}
use sctp_probe.Decoder.Raw.{decode_keeps_bytes}
use sctp_probe.Rules.{Env, World}
use sctp_probe.Main.{inbound}
use sctp_probe.Main.Tasks.{
  Stage, reads_session, saves, done, System, Move, arrives, advance, perform, perform_all,
}
use sctp_probe.Main.Tasks.Progress.{left, turns_of, left-advance, perform_all-ends}
use sctp_probe.Main.Tasks.Follow.{Spares, follow}
use sctp_probe.Main.Tasks.Logs.{Clears, log_of, perform-IsExtension, advance-IsExtension}

-- Behind the rows of `old` there is a row for the message, inbound, with its peer, port and bytes.
pub record IsFound (raw : List ℕ) (peer : Text) (port : ℕ) (old rows : List (Row Message))
    : Type 0 where
  pub row : Row Message
  pub before : List (Row Message)
  pub after : List (Row Message)
  pub split : rows ≡ old ++ before ++ row ∷ after
  pub is_inbound : row.cols.direction ≡ codes "inbound"
  pub from_peer : row.cols.peer_addr ≡ some peer
  pub on_port : row.cols.local_port ≡ some port
  pub keeps_bytes : b64decode row.cols.raw_bytes_b64 ≡ some raw

module _ (raw : List ℕ) (peer : Text) (port : ℕ) (old : List (Row Message)) where
  -- What a task of the message has achieved: it still has the message, or the log has.
  abbrev Tracks : List (Row Message) → Stage → Type 0
  Tracks rows (reads_session r p q) = (r ≡ raw) × (p ≡ peer) × (q ≡ port)
  Tracks rows (saves r p q session_id) = (r ≡ raw) × (p ≡ peer) × (q ≡ port)
  Tracks rows _ = IsFound raw peer port old rows

  Tracks→IsFound :
      (rows : List (Row Message)) (t : Stage)
      → left t ≤ 8
      → Tracks rows t
      → IsFound raw peer port old rows
  Tracks→IsFound rows (reads_session r p q) few h = absurd (omega arith)
  Tracks→IsFound rows (saves r p q session_id) few h = absurd (omega arith)
  Tracks→IsFound rows _ few h = h

  IsFound→Tracks :
      (rows : List (Row Message)) (t : Stage)
      → left t ≤ 8
      → IsFound raw peer port old rows
      → Tracks rows t
  IsFound→Tracks rows (reads_session r p q) few h = absurd (omega arith)
  IsFound→Tracks rows (saves r p q session_id) few h = absurd (omega arith)
  IsFound→Tracks rows _ few h = h

  IsFound-grows :
      (rows rows' : List (Row Message))
      → IsExtension rows rows'
      → IsFound raw peer port old rows
      → IsFound raw peer port old rows'
  IsFound-grows rows rows' (more, e) f = record {
    row = f.row;
    before = f.before;
    after = f.after ++ more;
    split = e ∙ ap (λ l. l ++ more) f.split ∙ append_assoc (old ++ f.before) (f.row ∷ f.after) more;
    is_inbound = f.is_inbound;
    from_peer = f.from_peer;
    on_port = f.on_port;
    keeps_bytes = f.keeps_bytes;
  }

  Tracks-grows :
      (rows rows' : List (Row Message)) (t : Stage)
      → IsExtension rows rows'
      → Tracks rows t
      → Tracks rows' t
  Tracks-grows rows rows' (reads_session r p q) x h = h
  Tracks-grows rows rows' (saves r p q session_id) x h = h
  Tracks-grows rows rows' _ x h = IsFound-grows rows rows' x h

  saves-IsFound :
      (env : Env) (r : List ℕ) (p : Text) (q : ℕ) (session_id : Text) (w : World)
      → AreBytes raw
      → IsExtension old w.store.messages.rows
      → (r ≡ raw) × (p ≡ peer) × (q ≡ port)
      → IsFound raw peer port old (advance env (saves r p q session_id) w).1.store.messages.rows
  unfolding advance save_message insert message_columns inbound
  saves-IsFound env r p q session_id w are_bytes (more, e) (er, ep, eq) =
      let saved = (save_message env.now (inbound env session_id (decode env.py r) p q) w.store).0 in
      record {
        row = saved;
        before = more;
        after = [];
        split = ap (λ l. l ++ saved ∷ []) e;
        is_inbound = refl;
        from_peer = ap some ep;
        on_port = ap some eq;
        keeps_bytes = rw er (decode_keeps_bytes env.py raw are_bytes);
      }

  advance-Tracks :
      (env : Env) (t : Stage) (w : World)
      → AreBytes raw
      → IsExtension old w.store.messages.rows
      → Tracks w.store.messages.rows t
      → Tracks (advance env t w).1.store.messages.rows (advance env t w).0
  unfolding advance
  advance-Tracks env (reads_session r p q) w are_bytes x h = h
  advance-Tracks env (saves r p q session_id) w are_bytes x h =
      saves-IsFound env r p q session_id w are_bytes x h
  advance-Tracks env t w are_bytes x h =
      let (t', w') = advance env t w in
      IsFound→Tracks w'.store.messages.rows t' (omega (arith, left-advance env t w))
        (IsFound-grows w.store.messages.rows w'.store.messages.rows (advance-IsExtension env t w) h)

  IsExtension-trans :
      (rows rows' : List (Row Message))
      → IsExtension old rows
      → IsExtension rows rows'
      → IsExtension old rows'
  IsExtension-trans rows rows' (xs, e) (ys, d) =
      (xs ++ ys, d ∙ ap (λ l. l ++ ys) e ∙ append_assoc old xs ys)

  -- The log has grown since, and the task has the message or the log has it.
  abbrev Keeps : World → Stage → Type 0
  Keeps w t = IsExtension old w.store.messages.rows × Tracks w.store.messages.rows t

  own-Keeps :
      AreBytes raw
      → (env : Env) (t : Stage) (w : World) → Keeps w t
      → Keeps (advance env t w).1 (advance env t w).0
  own-Keeps are_bytes env t w (x, h) = (
    IsExtension-trans w.store.messages.rows _ x (advance-IsExtension env t w),
    advance-Tracks env t w are_bytes x h,
  )

  other-Keeps :
      (sys : System) (m : Move) (t : Stage)
      → ¬ Clears m
      → Keeps sys.app.world t
      → Keeps (perform sys m).app.world t
  other-Keeps sys m t keeps (x, h) =
      let grows = perform-IsExtension sys m keeps in
      (
        IsExtension-trans (log_of sys) (log_of (perform sys m)) x grows,
        Tracks-grows (log_of sys) (log_of (perform sys m)) t grows h,
      )

-- A message that arrives is handled to the end once its task has had ten turns, and it then stands in
-- the log behind the rows that were there, as inbound, with its peer, its port and all its bytes. The
-- turns may come at any times: other messages, turns and cancellations of other tasks, requests and
-- changes of connections may stand in between, except a deletion of the messages and a cancellation of
-- the task itself.
pub message_handled :
    (sys : System) (raw : List ℕ) (peer : Text) (port : ℕ) (ms : List Move)
    → AreBytes raw
    → All (λ m. ¬ Clears m) ms
    → All (Spares (length sys.tasks)) ms
    → 10 ≤ turns_of (length sys.tasks) ms
    → let sys' = perform_all sys (arrives raw peer port ∷ ms) in
      (get_elem? sys'.tasks (length sys.tasks) ≡ some done)
      × IsFound raw peer port (log_of sys) (log_of sys')
unfolding perform_all perform
message_handled sys raw peer port ms are_bytes keeps spares enough =
    let made = perform sys (arrives raw peer port) in
    let i = length sys.tasks in
    let t = reads_session raw peer port in
    let at = get_elem?-length-append sys.tasks t [] in
    let ended = perform_all-ends ms made i t at enough in
    let (t', at', h) =
      follow (λ s. Unit) (Keeps raw peer port (log_of sys)) (λ s m k u. tt)
        (own-Keeps raw peer port (log_of sys) are_bytes)
        (λ s m t k u. other-Keeps raw peer port (log_of sys) s m t k) ms made i t keeps spares tt at
        (([], sym (append-nil (log_of sys))), (refl, refl, refl)) in
    let same : some t' ≡ some done = sym at' ∙ ended in
    let finished : t' ≡ done = cc same in
    (ended, subst (Tracks raw peer port (log_of sys) (log_of (perform_all made ms))) finished h.1)
