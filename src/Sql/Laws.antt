-- ===== src/Sql/Laws.antt =====
-- Laws of the statements: what a query returns after a write.
use stackhour.Prelude.{
  ◌≡◌, refl, ◌∙◌, Bool, true, false, Option, none, some, List, [], ◌∷◌, ◌++◌, arith, inl, inr,
  if◌then◌else◌, ◌&&◌,
}
use stackhour.Result.{Result, ok, Result-cases}
use stackhour.Sql.{select, first, exists, insert, update, changed, order_by, insert_sorted, collect}

abbrev pub or_else {ℓ} : {A : Type ℓ} → Option A → Option A → Option A
or_else none o = o
or_else (some a) o = some a

module _ {ℓ} {R : Type ℓ} where
  pub first-append :
      (p : R → Bool) (xs ys : List R) → first p (xs ++ ys) ≡ or_else (first p xs) (first p ys)
  unfolding first
  first-append p [] ys = refl
  first-append p (x ∷ xs) ys = ground (arith, first-append p xs ys)

  pub first_holds : (p : R → Bool) (xs : List R) {r : R} → first p xs ≡ some r → p r ≡ true
  unfolding first
  first_holds p [] h = ground arith
  first_holds p (x ∷ xs) {r} h = ground (arith, first_holds p xs {r = r})

  pub first_of_exists : (p : R → Bool) (xs : List R) → exists p xs ≡ false → first p xs ≡ none
  unfolding first exists
  first_of_exists p [] h = refl
  first_of_exists p (x ∷ xs) h = ground (arith, first_of_exists p xs)

  pub insert_new :
      (conflict : R → Bool) (r : R) (rs : List R)
      → exists conflict rs ≡ false
      → insert conflict r rs ≡ ok (rs ++ r ∷ [])
  unfolding insert
  insert_new conflict r rs h = ground arith

  pub select-append :
      (p : R → Bool) (xs ys : List R) → select p (xs ++ ys) ≡ select p xs ++ select p ys
  unfolding select
  select-append p [] ys = refl
  select-append p (x ∷ xs) ys = ground (arith, select-append p xs ys)

  -- An UPDATE that keeps the test finds the same row, updated.
  pub first-update :
      (p q : R → Bool) (f : R → R)
      → ((r : R) → q (f r) ≡ q r)
      → (xs : List R)
      → first q (update p f xs)
        ≡ (elim (first q xs) [ none ↦ none | some r ↦ some (if p r then f r else r) ])
  unfolding first update
  first-update p q f keep [] = refl
  first-update p q f keep (x ∷ xs) = ground (arith, keep x, first-update p q f keep xs)

  -- An UPDATE of the rows that a query finds shows in the query.
  pub first-update_self :
      (p : R → Bool) (f : R → R)
      → ((r : R) → p (f r) ≡ p r)
      → (xs : List R) {r : R} → first p xs ≡ some r
      → first p (update p f xs) ≡ some (f r)
  unfolding first update
  first-update_self p f keep [] h = ground arith
  first-update_self p f keep (x ∷ xs) {r} h =
      ground (arith, keep x, first-update_self p f keep xs {r = r})

  abbrev pub Sorted : (R → R → Bool) → List R → Type 0
  Sorted le [] = Unit
  Sorted le (x ∷ []) = Unit
  Sorted le (x ∷ y ∷ rs) = (le x y ≡ true) × Sorted le (y ∷ rs)

  -- ORDER BY leaves rows that are in order as they are.
  pub order_by-Sorted : (le : R → R → Bool) (xs : List R) → Sorted le xs → order_by le xs ≡ xs
  unfolding order_by insert_sorted
  order_by-Sorted le [] h = refl
  order_by-Sorted le (x ∷ []) h = refl
  order_by-Sorted le (x ∷ y ∷ rs) h = rw (order_by-Sorted le (y ∷ rs) h.1) (ground arith)

  exists-insert_sorted :
      (le : R → R → Bool) (p : R → Bool) (r : R) (xs : List R)
      → exists p (insert_sorted le r xs) ≡ (if p r then true else exists p xs)
  unfolding exists insert_sorted
  exists-insert_sorted le p r [] = refl
  exists-insert_sorted le p r (x ∷ xs) = ground (arith, exists-insert_sorted le p r xs)

  pub exists-order_by :
      (le : R → R → Bool) (p : R → Bool) (xs : List R) → exists p (order_by le xs) ≡ exists p xs
  unfolding exists order_by
  exists-order_by le p [] = refl
  exists-order_by le p (x ∷ xs) =
      exists-insert_sorted le p x (order_by le xs) ∙ ground (arith, exists-order_by le p xs)

  pub exists-select :
      (p q : R → Bool) (xs : List R) → exists p (select q xs) ≡ exists (λ x. q x && p x) xs
  unfolding exists select
  exists-select p q [] = refl
  exists-select p q (x ∷ xs) = ground (arith, exists-select p q xs)

  -- UPDATE of rows that then fail the test: a second one finds nothing.
  pub changed-update :
      (p : R → Bool) (f : R → R)
      → ((r : R) → p r ≡ true → p (f r) ≡ false)
      → (xs : List R) → changed p (update p f xs) ≡ 0
  unfolding changed update
  changed-update p f stop [] = refl
  changed-update p f stop (x ∷ xs) = ground (arith, stop x, changed-update p f stop xs)

  pub update-update :
      (p : R → Bool) (f g : R → R)
      → ((r : R) → p r ≡ true → p (f r) ≡ false)
      → (xs : List R) → update p g (update p f xs) ≡ update p f xs
  unfolding update
  update-update p f g stop [] = refl
  update-update p f g stop (x ∷ xs) = ground (arith, stop x, update-update p f g stop xs)

module _ {ℓ κ} {R : Type ℓ} {A : Type κ} (f : R → Result A) where
  pub collect_cons :
      (x : R) (xs : List R) {a : A} {rest : List A}
      → f x ≡ ok a
      → collect f xs ≡ ok rest
      → collect f (x ∷ xs) ≡ ok (a ∷ rest)
  unfolding collect
  collect_cons x xs h k = ground arith

  pub cons_collect :
      (x : R) (xs : List R) {out : List A}
      → collect f (x ∷ xs) ≡ ok out
      → (a : A) × (rest : List A) × (f x ≡ ok a) × (collect f xs ≡ ok rest) × (out ≡ a ∷ rest)
  unfolding collect
  cons_collect x xs h = elim (Result-cases (f x)) [
    | inl (a, p) ↦ elim (Result-cases (collect f xs)) [
      | inl (rest, q) ↦ (a, rest, p, q, ground arith)
      | inr (e, q) ↦ absurd (ground arith)
    ]
    | inr (e, p) ↦ absurd (ground arith)
  ]

  -- One row more at the end of a query's rows is one value more at the end of its values.
  pub collect-snoc :
      (xs : List R) (y : R) {out : List A} {a : A}
      → collect f xs ≡ ok out
      → f y ≡ ok a
      → collect f (xs ++ y ∷ []) ≡ ok (out ++ a ∷ [])
  unfolding collect
  collect-snoc [] y h k = ground arith
  collect-snoc (x ∷ xs) y {out} {a} h k =
      let (b, rest, p, q, e) = cons_collect x xs h in
      rw e (collect_cons x (xs ++ y ∷ []) p (collect-snoc xs y q k))
