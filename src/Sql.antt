-- ===== src/Sql.antt =====
-- The SQL statements that the store issues, over a table as the list of its rows in rowid order.
pub mod Laws
pub mod Order
use mathlib.Core.List.{reverse}
use stackhour.Prelude.{
  ℕ, suc, ◌+◌, Bool, true, false, Option, none, some, List, [], ◌∷◌, ◌++◌, take, leb, if◌then◌else◌,
}
use stackhour.Result.{Result, ok, err, constraint, ◌>>=◌}

module _ {ℓ} {R : Type ℓ} where
  -- SELECT … WHERE p
  unfoldable pub select : (R → Bool) → List R → List R
  select p [] = []
  select p (r ∷ rs) = let rest = select p rs in if p r then r ∷ rest else rest

  -- SELECT … WHERE p, of at most one row (`query_row(…).optional()`)
  unfoldable pub first : (R → Bool) → List R → Option R
  first p [] = none
  first p (r ∷ rs) = if p r then some r else first p rs

  unfoldable pub exists : (R → Bool) → List R → Bool
  exists p [] = false
  exists p (r ∷ rs) = if p r then true else exists p rs

  -- INSERT of a row, refused where a row in conflict is there already
  unfoldable pub insert : (R → Bool) → R → List R → Result (List R)
  unfolding exists
  insert conflict r rs = if exists conflict rs then err constraint else ok (rs ++ r ∷ [])

  -- UPDATE … SET f WHERE p
  unfoldable pub update : (R → Bool) → (R → R) → List R → List R
  update p f [] = []
  update p f (r ∷ rs) = (if p r then f r else r) ∷ update p f rs

  -- the number of rows that an UPDATE changes
  unfoldable pub changed : (R → Bool) → List R → ℕ
  changed p [] = 0
  changed p (r ∷ rs) = let rest = changed p rs in if p r then suc rest else rest

  -- INSERT … ON CONFLICT DO UPDATE: `p` finds the row in conflict, `f` updates it
  unfoldable pub upsert : (R → Bool) → (R → R) → R → List R → List R
  unfolding exists update
  upsert p f r rs = if exists p rs then update p f rs else rs ++ r ∷ []

  -- COALESCE(MAX(key), 0)
  unfoldable pub max_of : (R → ℕ) → List R → ℕ
  max_of key [] = 0
  max_of key (r ∷ rs) = let m = max_of key rs in if leb (key r) m then m else key r

  insert_sorted : (R → R → Bool) → R → List R → List R
  insert_sorted le r [] = r ∷ []
  insert_sorted le r (s ∷ rs) =
      let rest = insert_sorted le r rs in if le r s then r ∷ s ∷ rs else s ∷ rest

  -- ORDER BY the order `le`
  unfoldable pub order_by : (R → R → Bool) → List R → List R
  unfolding insert_sorted
  order_by le [] = []
  order_by le (r ∷ rs) = insert_sorted le r (order_by le rs)

  -- ORDER BY key DESC LIMIT n, and the `reverse` that the callers apply to the rows
  unfoldable pub last_by : (R → ℕ) → ℕ → List R → List R
  unfolding order_by
  last_by key n rs = reverse (take n (order_by (λ r s. leb (key s) (key r)) rs))

  -- the rows of a query through their mapper, up to the first that fails
  unfoldable pub collect {κ} : {A : Type κ} → (R → Result A) → List R → Result (List A)
  collect f [] = ok []
  collect f (r ∷ rs) = do a ← f r; rest ← collect f rs; ok (a ∷ rest)
