-- ===== src/Dict/Drain.antt =====
-- A state that holds sockets under names, and the removal of all of them, name by name.
use sctp_probe.Prelude.{
  ℕ, ◌≡◌, ◌↔◌, refl, Bool, true, List, [], ◌∷◌, ◌++◌, Option, none, some, arith, subst, ap, sym,
  ◌∙◌, inl, inr, Bool-cases, if◌then◌else◌,
}
use mathlib.Core.List.{append-nil, append_assoc}
use sctp_probe.Dict.{get, pop, keys, get-pop}

-- What a removal by name does: the name is free, and the sockets under it are closed.
pub record Pool (K V S : Type 0) : Type 0 where
  pub eq : K → K → Bool
  pub eq_iff : (a b : K) → (eq a b ≡ true) ↔ (a ≡ b)
  pub entries : S → List (K × V)
  pub closed : S → List ℕ
  pub sockets : Option V → List ℕ
  pub remove : K → S → S
  pub entries_after : (k : K) (s : S) → entries (remove k s) ≡ pop eq k (entries s)
  pub closed_after :
      (k : K) (s : S) → closed (remove k s) ≡ closed s ++ sockets (get eq k (entries s))

module _ {K V S : Type 0} (p : Pool K V S) where
  unfoldable pub remove_each : List K → S → S
  remove_each [] s = s
  remove_each (k ∷ ks) s = remove_each ks (p.remove k s)

  abbrev there : K → S → Option V
  there k s = get p.eq k (p.entries s)

  -- Nothing is under the name any more, and what was there is closed.
  abbrev pub IsDrained : K → S → S → Type 0
  IsDrained k s s' =
      (get p.eq k (p.entries s') ≡ none)
      × ((v : V)
          → get p.eq k (p.entries s) ≡ some v
          → (before behind : List ℕ) × (p.closed s' ≡ before ++ p.sockets (some v) ++ behind))

  -- Sockets that were closed stay closed.
  closed-remove_each :
      (ks : List K) (s : S) → (more : List ℕ) × (p.closed (remove_each ks s) ≡ p.closed s ++ more)
  unfolding remove_each
  closed-remove_each [] s = ([], sym (append-nil (p.closed s)))
  closed-remove_each (k ∷ ks) s =
      let now = p.sockets (there k s) in
      let (later, e) = closed-remove_each ks (p.remove k s) in
      (
        now ++ later,
        e ∙ ap (λ l. l ++ later) (p.closed_after k s) ∙ append_assoc (p.closed s) now later,
      )

  there-remove : (k j : K) (s : S) → there j (p.remove k s) ≡ (if p.eq k j then none else there j s)
  there-remove k j s =
      ap (get p.eq j) (p.entries_after k s) ∙ get-pop p.eq p.eq_iff k j (p.entries s)

  stays_gone : (ks : List K) (s : S) (j : K) → there j s ≡ none → there j (remove_each ks s) ≡ none
  unfolding remove_each
  stays_gone [] s j gone = gone
  stays_gone (k ∷ ks) s j gone =
      stays_gone ks (p.remove k s) j (ground (arith, there-remove k j s, gone))

  first-IsDrained : (ks : List K) (s : S) (j : K) → IsDrained j s (remove_each ks (p.remove j s))
  first-IsDrained ks s j =
      let (more, grown) = closed-remove_each ks (p.remove j s) in
      (
        stays_gone ks (p.remove j s) j (there-remove j j s ∙ rw ((p.eq_iff j j).1 refl) refl),
        λ v found. (
          p.closed s,
          more,
          grown
              ∙ ap (λ l. l ++ more) (p.closed_after j s)
              ∙ ap (λ o. (p.closed s ++ p.sockets o) ++ more) found,
        ),
      )

  remove_each-IsDrained :
      (l : List (K × V)) (s : S) (j : K)
      → there j s ≡ get p.eq j l
      → IsDrained j s (remove_each (keys l) s)
  unfolding remove_each get
  remove_each-IsDrained [] s j e = (e, λ v found. absurd (cc (e, found)))
  remove_each-IsDrained ((k, x) ∷ l) s j e = elim (Bool-cases (p.eq k j)) [
    | inl same ↦
        subst (λ i. IsDrained j s (remove_each (keys l) (p.remove i s)))
          (sym ((p.eq_iff k j).0 same)) (first-IsDrained (keys l) s j)
    | inr other ↦
        let kept = there-remove k j s ∙ rw other refl in
        let (gone, shut) = remove_each-IsDrained l (p.remove k s) j (kept ∙ e ∙ rw other refl) in
        (gone, λ v found. shut v (kept ∙ found))
  ]

  pub remove_all-IsDrained : (s : S) (j : K) → IsDrained j s (remove_each (keys (p.entries s)) s)
  remove_all-IsDrained s j = remove_each-IsDrained (p.entries s) s j refl
