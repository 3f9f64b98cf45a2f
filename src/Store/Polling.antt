-- ===== src/Store/Polling.antt =====
-- A client that polls GET /api/messages with `since_id` set to the last key it has seen.
use sctp_probe.Prelude.{
  ℕ, zero, suc, ◌≤◌, ◌<◌, ◌≡◌, ◌&&◌, Bool, List, [], ◌∷◌, ◌++◌, Option, Text, arith, length, take,
  drop, filter, ltb, ℤ, pos, sym, ap, fun_ext, ◌∙◌, take-append-drop, take-nil, take-cons-ne,
  List-cases, inl, inr, length-drop-lt,
}
use sctp_probe.Table.{Row, IsTable, select}
use sctp_probe.Table.Paging.{Ascending-behind, last_id, last_id-take-ge, behind_page, filter_behind}
use sctp_probe.Store
use sctp_probe.Store.{
  Message, where_clause, clamp_limit, get_messages, direction_clause, pdu_type_clause,
}

pub clamp_limit_bounds : (limit : ℤ) → (1 ≤ clamp_limit limit) × (clamp_limit limit ≤ 1000)
unfolding clamp_limit
clamp_limit_bounds limit = ground arith

module _ (direction pdu_type : Option Text) (limit : ℤ) (s : Store.Store) where
  -- Asks again from the last key until a page comes back empty.
  unfoldable pub poll : ℕ → ℕ → List (Row Message)
  poll zero since = []
  poll (suc fuel) since = elim (get_messages (pos since) direction pdu_type limit s) [
    | [] ↦ []
    | r ∷ page ↦ (r ∷ page) ++ poll fuel (last_id since (r ∷ page))
  ]

unfoldable pub clauses : Option Text → Option Text → Row Message → Bool
clauses direction pdu_type r = direction_clause direction r.cols && pdu_type_clause pdu_type r.cols

unfoldable pub behind : Option Text → Option Text → ℕ → Store.Store → List (Row Message)
unfolding clauses
behind direction pdu_type k s =
    filter (λ r. ltb k r.id && clauses direction pdu_type r) s.messages.rows

module _ (direction pdu_type : Option Text) (limit : ℤ) (s : Store.Store) where
  select-behind :
      (k : ℕ)
      → select (where_clause (pos k) direction pdu_type) s.messages ≡ behind direction pdu_type k s
  unfolding select where_clause behind
  select-behind k =
      ap (λ (w : Row Message → Bool). filter w s.messages.rows) (fun_ext (λ r. ground arith))

  -- Behind the last key of a page stands what the page left out.
  rest_of_page :
      (k : ℕ)
      → IsTable s.messages
      → let n = clamp_limit limit in
        behind direction pdu_type (last_id k (take n (behind direction pdu_type k s))) s
        ≡ drop n (behind direction pdu_type k s)
  unfolding behind
  rest_of_page k v =
      let n = clamp_limit limit in
      let q = clauses direction pdu_type in
      let found = filter (λ (r : Row Message). ltb k r.id && q r) s.messages.rows in
      let up = Ascending-behind q k 0 s.messages.seq s.messages.rows v in
      sym (
        filter_behind q k (last_id k (take n found)) s.messages.rows
          (last_id-take-ge n k _ found up))
      ∙ behind_page n k _ found up

  pub get_messages-behind :
      (k : ℕ)
      → get_messages (pos k) direction pdu_type limit s
        ≡ take (clamp_limit limit) (behind direction pdu_type k s)
  unfolding get_messages
  get_messages-behind k = ap (take (clamp_limit limit)) (select-behind k)

  poll-behind :
      (fuel k : ℕ)
      → IsTable s.messages
      → length (behind direction pdu_type k s) < fuel
      → poll direction pdu_type limit s fuel k ≡ behind direction pdu_type k s
  unfolding poll
  poll-behind zero k v h = elim h [ ]
  poll-behind (suc fuel) k v h =
      elim (List-cases (get_messages (pos k) direction pdu_type limit s)) [
        | inl e ↦ rw (e, poll) (sym (take-nil n found enough (sym (get_messages-behind k) ∙ e)))
        | inr (r, page, e) ↦
            let shown : take n found ≡ r ∷ page = sym (get_messages-behind k) ∙ e in
            rw (e, poll)
              (ap (λ rest. (r ∷ page) ++ rest)
                  (turn r page shown (poll-behind fuel (last_id k (r ∷ page)) v))
                ∙ ap (λ front. front ++ drop n found) (sym shown)
                ∙ take-append-drop n found)
      ]
    where
      n : ℕ
      n = clamp_limit limit

      found : List (Row Message)
      found = behind direction pdu_type k s

      enough : 1 ≤ n
      enough = (clamp_limit_bounds limit).0

      turn :
          (r : Row Message) (page : List (Row Message))
          → take n found ≡ r ∷ page
          → (length (behind direction pdu_type (last_id k (r ∷ page)) s) < fuel
              → poll direction pdu_type limit s fuel (last_id k (r ∷ page))
                ≡ behind direction pdu_type (last_id k (r ∷ page)) s)
          → poll direction pdu_type limit s fuel (last_id k (r ∷ page)) ≡ drop n found
      turn r page e ih =
          let left : behind direction pdu_type (last_id k (r ∷ page)) s ≡ drop n found =
            rw (← e) (rest_of_page k v) in
          ih (
            omega (
              arith,
              ap length left,
              length-drop-lt n found enough (take-cons-ne n found r page e),
            ))
          ∙ left

  -- Polling a log that nobody writes to ends, and it brings every message that passes the filters
  -- and has a key above the first `since_id`, once, in the order of the keys, whatever page size is
  -- asked for: `limit` may be 0, negative or above 1000. One round more than there are such messages
  -- is enough. (The keys of the table rise along its rows, as those of every store in use do.)
  pub poll_complete :
      (fuel since : ℕ)
      → IsTable s.messages
      → length (select (where_clause (pos since) direction pdu_type) s.messages) < fuel
      → poll direction pdu_type limit s fuel since
        ≡ select (where_clause (pos since) direction pdu_type) s.messages
  poll_complete fuel since v h =
      poll-behind fuel since v (omega (arith, ap length (select-behind since)))
      ∙ sym (select-behind since)
