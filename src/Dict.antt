-- ===== src/Dict.antt =====
-- Python's dict, in the order of insertion, over keys with a Boolean test.
pub mod Drain
pub mod Entries
use sctp_probe.Prelude.{
  Bool, List, [], ◌∷◌, Option, none, some, if◌then◌else◌, map, ◌≡◌, refl, arith, ◌↔◌, true,
}

module _ {ℓ} {K V : Type ℓ} (eq : K → K → Bool) where
  -- d.get(k)
  unfoldable pub get : K → List (K × V) → Option V
  get k [] = none
  get k ((j, v) ∷ d) = if eq j k then some v else get k d

  -- d[k] = v keeps the place of a key that is there.
  unfoldable pub put : K → V → List (K × V) → List (K × V)
  put k v [] = (k, v) ∷ []
  put k v ((j, w) ∷ d) = if eq j k then (j, v) ∷ d else (j, w) ∷ put k v d

  -- d.pop(k, None)
  unfoldable pub pop : K → List (K × V) → List (K × V)
  pop k [] = []
  pop k ((j, v) ∷ d) = if eq j k then pop k d else (j, v) ∷ pop k d

  module _ (eq_iff : (a b : K) → (eq a b ≡ true) ↔ (a ≡ b)) where
    pub get-put :
        (k j : K) (v : V) (d : List (K × V))
        → get j (put k v d) ≡ (if eq k j then some v else get j d)
    unfolding get put
    get-put k j v [] = refl
    get-put k j v ((i, w) ∷ d) = ground (arith, get-put k j v d, eq_iff i k, eq_iff i j, eq_iff k j)

    pub get-pop :
        (k j : K) (d : List (K × V)) → get j (pop k d) ≡ (if eq k j then none else get j d)
    unfolding get pop
    get-pop k j [] = ground arith
    get-pop k j ((i, w) ∷ d) = ground (arith, get-pop k j d, eq_iff i k, eq_iff i j, eq_iff k j)

-- list(d.keys()), list(d.values())
abbrev pub keys {ℓ} : {K V : Type ℓ} → List (K × V) → List K
keys = map (λ e. e.0)

abbrev pub values {ℓ} : {K V : Type ℓ} → List (K × V) → List V
values = map (λ e. e.1)
