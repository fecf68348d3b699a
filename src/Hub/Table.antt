-- ===== src/Hub/Table.antt =====
-- A `HashMap` as an association list in which a key stands at most once.
use stackhour.Prelude.{
  Bool, true, false, ◌≡◌, refl, Option, none, some, List, [], ◌∷◌, arith, if◌then◌else◌,
}

module _ {ℓ κ} {K : Type ℓ} {V : Type κ} (same : K → K → Bool) where
  unfoldable pub get : K → List (K × V) → Option V
  get k [] = none
  get k ((j, v) ∷ rest) = if same j k then some v else get k rest

  unfoldable pub remove : K → List (K × V) → List (K × V)
  remove k [] = []
  remove k ((j, v) ∷ rest) = let left = remove k rest in if same j k then left else (j, v) ∷ left

  unfoldable pub insert : K → V → List (K × V) → List (K × V)
  unfolding remove
  insert k v rows = (k, v) ∷ remove k rows

  pub get-remove : (k : K) (rows : List (K × V)) → get k (remove k rows) ≡ none
  unfolding get remove
  get-remove k [] = refl
  get-remove k ((j, v) ∷ rest) = ground (arith, get-remove k rest)

  pub get-insert :
      (k : K) (v : V) (rows : List (K × V)) → same k k ≡ true → get k (insert k v rows) ≡ some v
  unfolding get insert
  get-insert k v rows h = ground arith

  pub get-remove_other :
      (k j : K)
      → ((i : K) → same i k ≡ true → same i j ≡ false)
      → (rows : List (K × V)) → get j (remove k rows) ≡ get j rows
  unfolding get remove
  get-remove_other k j apart [] = refl
  get-remove_other k j apart ((i, v) ∷ rest) =
      ground (arith, apart i, get-remove_other k j apart rest)
