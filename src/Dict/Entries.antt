-- ===== src/Dict/Entries.antt =====
-- What holds of every entry of a dict.
use sctp_probe.Prelude.{
  ◌≡◌, ◌↔◌, Bool, true, false, All, List, [], ◌∷◌, some, subst, sym, arith, inl, inr, Bool-cases,
}
use sctp_probe.Dict.{get, put, pop}

abbrev pub AllEntries {ℓ} : {K V : Type ℓ} → (K → V → Type ℓ) → List (K × V) → Type ℓ
AllEntries P d = All (λ x. P x.0 x.1) d

pub AllEntries-weaken {ℓ} :
    {K V : Type ℓ} (P Q : K → V → Type ℓ)
    → ((k : K) (v : V) → P k v → Q k v)
    → (d : List (K × V)) → AllEntries P d
    → AllEntries Q d
AllEntries-weaken P Q f [] h = tt
AllEntries-weaken P Q f ((k, v) ∷ d) h = (f k v h.0, AllEntries-weaken P Q f d h.1)

module _ {ℓ} {K V : Type ℓ} (eq : K → K → Bool) (eq_iff : (a b : K) → (eq a b ≡ true) ↔ (a ≡ b))
    (P : K → V → Type ℓ) where
  pub AllEntries-put :
      (k : K) (v : V) (d : List (K × V)) → P k v → AllEntries P d → AllEntries P (put eq k v d)
  unfolding put
  AllEntries-put k v [] new h = (new, tt)
  AllEntries-put k v ((j, w) ∷ d) new h = elim (Bool-cases (eq j k)) [
    | inl same ↦ rw same (subst (λ i. P i v) (sym ((eq_iff j k).0 same)) new, h.1)
    | inr other ↦ rw other (h.0, AllEntries-put k v d new h.1)
  ]

  pub AllEntries-pop :
      (k : K) (d : List (K × V))
      → AllEntries P d
      → AllEntries (λ j v. P j v × (eq j k ≡ false)) (pop eq k d)
  unfolding pop
  AllEntries-pop k [] h = tt
  AllEntries-pop k ((j, w) ∷ d) h = elim (Bool-cases (eq j k)) [
    | inl same ↦ rw same (AllEntries-pop k d h.1)
    | inr other ↦ rw other ((h.0, other), AllEntries-pop k d h.1)
  ]

  pub AllEntries-get :
      (k : K) (v : V) (d : List (K × V)) → AllEntries P d → get eq k d ≡ some v → P k v
  unfolding get
  AllEntries-get k v [] h e = absurd (cc e)
  AllEntries-get k v ((j, w) ∷ d) h e = elim (Bool-cases (eq j k)) [
    | inl same ↦
        let here : w ≡ v = ground (arith, same, e) in
        subst (P k) here (subst (λ i. P i w) ((eq_iff j k).0 same) h.0)
    | inr other ↦ AllEntries-get k v d h.1 (ground (arith, other, e))
  ]
