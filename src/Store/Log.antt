-- ===== src/Store/Log.antt =====
-- What GET /api/messages returns, and a message read back after it was saved.
use sctp_probe.Prelude.{
  ℕ, suc, ◌≤◌, ◌≡◌, refl, ◌⊎◌, inl, inr, List, [], ◌∷◌, ◌++◌, Option, none, some, Text, ℤ, pos,
  arith, length, take, ◌<ℤ◌, All, true, filter-All, take-All, length-take, filter-append,
  text_eq_iff, ◌∙◌, ap, filter, zero, sym, ltb, ◌&&◌,
}
use sctp_probe.Table.{Row, Ascending, IsTable, select, insert}
use sctp_probe.Table.Order.{Ascending-filter}
use sctp_probe.Table.Paging.{none_behind, Ascending-take}
use sctp_probe.Store
use sctp_probe.Store.{
  Message, where_clause, direction_clause, pdu_type_clause, equals_column, get_messages,
  save_message, clamp_limit,
}
use sctp_probe.Store.Polling.{clauses, behind, get_messages-behind, clamp_limit_bounds}

-- A filter that is missing or empty lets everything pass; NULL equals no text.
abbrev pub Passes : Option Text → Option Text → Type 0
Passes filter column = (filter ≡ none) ⊎ (filter ≡ some []) ⊎ (filter ≡ column)

pub record IsAsked (since_id : ℤ) (direction pdu_type : Option Text) (r : Row Message)
    : Type 0 where
  pub newer : since_id <ℤ pos r.id
  pub same_direction : Passes direction (some r.cols.direction)
  pub same_pdu_type : Passes pdu_type r.cols.pdu_type

direction-Passes :
    (direction : Option Text) (m : Message)
    → direction_clause direction m ≡ true
    → Passes direction (some m.direction)
unfolding direction_clause
direction-Passes none m h = inl refl
direction-Passes (some []) m h = inr (inl refl)
direction-Passes (some (c ∷ cs)) m h =
    inr (inr (ap some (sym ((text_eq_iff m.direction (c ∷ cs)).0 h))))

equals_column-eq :
    (column : Option Text) (t : Text) → equals_column column t ≡ true → some t ≡ column
unfolding equals_column
equals_column-eq none t h = absurd (cc h)
equals_column-eq (some s) t h = ap some (sym ((text_eq_iff s t).0 h))

pdu_type-Passes :
    (pdu_type : Option Text) (m : Message)
    → pdu_type_clause pdu_type m ≡ true
    → Passes pdu_type m.pdu_type
unfolding pdu_type_clause
pdu_type-Passes none m h = inl refl
pdu_type-Passes (some []) m h = inr (inl refl)
pdu_type-Passes (some (c ∷ cs)) m h = inr (inr (equals_column-eq m.pdu_type (c ∷ cs) h))

module _ (since_id : ℤ) (direction pdu_type : Option Text) where
  where_clause-IsAsked :
      (r : Row Message)
      → where_clause since_id direction pdu_type r ≡ true
      → IsAsked since_id direction pdu_type r
  unfolding where_clause
  where_clause-IsAsked r h = record {
    newer = ground arith;
    same_direction = direction-Passes direction r.cols (ground arith);
    same_pdu_type = pdu_type-Passes pdu_type r.cols (ground arith);
  }

  All-IsAsked :
      (rs : List (Row Message))
      → All (λ r. where_clause since_id direction pdu_type r ≡ true) rs
      → All (IsAsked since_id direction pdu_type) rs
  All-IsAsked [] h = tt
  All-IsAsked (r ∷ rs) h = (where_clause-IsAsked r h.0, All-IsAsked rs h.1)

  -- A page holds at most 1000 messages, whatever `limit` is. Each has a key above `since_id` and has
  -- the direction and the PDU type that are asked for, where these are given and not empty, and the
  -- keys rise along the page. (The keys of the table rise along its rows, as those of every store in
  -- use do.)
  pub get_messages_lem :
      (limit : ℤ) (s : Store.Store)
      → IsTable s.messages
      → let page = get_messages since_id direction pdu_type limit s in
        All (IsAsked since_id direction pdu_type) page
        × Ascending 0 s.messages.seq page
        × (length page ≤ 1000)
  unfolding get_messages select
  get_messages_lem limit s v =
      let w = where_clause since_id direction pdu_type in
      let n = clamp_limit limit in
      let found = filter w s.messages.rows in
      (
        All-IsAsked _ (take-All (λ r. w r ≡ true) n found (filter-All w s.messages.rows)),
        Ascending-take n 0 s.messages.seq found
            (Ascending-filter w 0 s.messages.seq s.messages.rows v),
        omega (arith, length-take n found, clamp_limit_bounds limit),
      )

take-one {ℓ} : {A : Type ℓ} (n : ℕ) (x : A) → 1 ≤ n → take n (x ∷ []) ≡ x ∷ []
take-one zero x h = absurd (omega arith)
take-one (suc zero) x h = refl
take-one (suc (suc n)) x h = refl

behind-save :
    (now : Text) (m : Store.NewMessage) (s : Store.Store)
    → IsTable s.messages
    → behind none none s.messages.seq (save_message now m s).1 ≡ (save_message now m s).0 ∷ []
unfolding behind save_message insert direction_clause pdu_type_clause
behind-save now m s v =
    let k = s.messages.seq in
    let row = (save_message now m s).0 in
    filter-append (λ r. ltb k r.id && clauses none none r) s.messages.rows (row ∷ [])
    ∙ ap (λ old. old ++ filter (λ r. ltb k r.id && clauses none none r) (row ∷ []))
        (none_behind (clauses none none) k 0 k s.messages.rows v (omega arith))
    ∙ ground arith

-- A client that has seen the log up to its last key, and asks for what is newer after one more
-- message is saved, gets that message's row and nothing else, whatever page size it asks for. (The
-- keys of the table rise along its rows, as those of every store in use do.)
get-save :
    (now : Text) (m : Store.NewMessage) (limit : ℤ) (s : Store.Store)
    → IsTable s.messages
    → get_messages (pos s.messages.seq) none none limit (save_message now m s).1
      ≡ (save_message now m s).0 ∷ []
get-save now m limit s v =
    let row = (save_message now m s).0 in
    get_messages-behind none none limit (save_message now m s).1 s.messages.seq
    ∙ ap (take (clamp_limit limit)) (behind-save now m s v)
    ∙ take-one (clamp_limit limit) row (clamp_limit_bounds limit).0
