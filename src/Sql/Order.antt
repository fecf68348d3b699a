-- ===== src/Sql/Order.antt =====
-- ORDER BY … DESC LIMIT n over rows that stand in ascending order.
use mathlib.Core.List.{reverse, reverse-reverse, reverse-cons, reverse-append}
use native.Mathlib.Decide.{dec_le}
use stackhour.Prelude.{
  ℕ, zero, suc, ◌-◌, ◌≤◌, ◌≡◌, refl, sym, ap, ◌∙◌, Bool, false, List, [], ◌∷◌, ◌++◌, arith, length,
  length-append, drop, take, All, All-append, inl, inr, leb, Bool-cases,
}
use stackhour.Sql.{select, order_by, insert_sorted, last_by}

module _ {ℓ} {R : Type ℓ} where
  pub length-reverse : (xs : List R) → length (reverse xs) ≡ length xs
  length-reverse [] = refl
  length-reverse (x ∷ xs) =
      omega (
        arith,
        ap length (reverse-cons x xs),
        length-append (reverse xs) (x ∷ []),
        length-reverse xs,
      )

  take_all : (n : ℕ) (xs : List R) → length xs ≤ n → take n xs ≡ xs
  take_all zero [] h = refl
  take_all zero (x ∷ xs) h = absurd (omega arith)
  take_all (suc n) [] h = refl
  take_all (suc n) (x ∷ xs) h = ap (◌∷◌ x) (take_all n xs (omega arith))

  take_front : (n : ℕ) (xs ys : List R) → length xs ≡ n → take n (xs ++ ys) ≡ xs
  take_front zero [] ys h = refl
  take_front zero (x ∷ xs) ys h = absurd (omega arith)
  take_front (suc n) [] ys h = absurd (omega arith)
  take_front (suc n) (x ∷ xs) ys h = ap (◌∷◌ x) (take_front n xs ys (omega arith))

  take-append-drop : (n : ℕ) (xs : List R) → take n xs ++ drop n xs ≡ xs
  take-append-drop zero xs = refl
  take-append-drop (suc n) [] = refl
  take-append-drop (suc n) (x ∷ xs) = ap (◌∷◌ x) (take-append-drop n xs)

  length-drop : (n : ℕ) (xs : List R) → length (drop n xs) ≡ length xs - n
  length-drop zero xs = omega arith
  length-drop (suc n) [] = omega arith
  length-drop (suc n) (x ∷ xs) = omega (arith, length-drop n xs)

  -- A reversed list, cut in two.
  reverse_parts : (m : ℕ) (xs : List R) → reverse xs ≡ reverse (drop m xs) ++ reverse (take m xs)
  reverse_parts m xs =
      ap reverse (sym (take-append-drop m xs)) ∙ reverse-append (take m xs) (drop m xs)

  -- The last `n` of a list, taken from its reversal.
  pub reverse-take-reverse :
      (n : ℕ) (xs : List R) → reverse (take n (reverse xs)) ≡ drop (length xs - n) xs
  reverse-take-reverse n xs = elim (dec_le n (length xs)) [
    | yes h ↦
        let m = length xs - n in
        rw (reverse_parts m xs) (
          rw
            (take_front n (reverse (drop m xs)) (reverse (take m xs))
              (omega (arith, length-reverse (drop m xs), length-drop m xs)))
            (reverse-reverse (drop m xs)))
    | no h ↦
        let e : length xs - n ≡ 0 = omega arith in
        rw e (rw (take_all n (reverse xs) (omega (arith, length-reverse xs))) (reverse-reverse xs))
  ]

  -- Each row is out of the order `le` with each later one.
  abbrev pub Apart : (R → R → Bool) → List R → Type ℓ
  Apart le [] = Unit
  Apart le (x ∷ xs) = All (λ s. le x s ≡ false) xs × Apart le xs

  insert_last :
      (le : R → R → Bool) (r : R) (xs : List R)
      → All (λ s. le r s ≡ false) xs
      → insert_sorted le r xs ≡ xs ++ r ∷ []
  unfolding insert_sorted
  insert_last le r [] h = refl
  insert_last le r (x ∷ xs) h = ground (arith, insert_last le r xs h.1)

  All-reverse {κ} : (P : R → Type κ) (xs : List R) → All P xs → All P (reverse xs)
  All-reverse P [] h = tt
  All-reverse P (x ∷ xs) h =
      rw reverse-cons (All-append P (reverse xs) (x ∷ []) (All-reverse P xs h.1) (h.0, tt))

  -- ORDER BY against the order of the rows reverses them.
  order_by-reverse : (le : R → R → Bool) (xs : List R) → Apart le xs → order_by le xs ≡ reverse xs
  unfolding order_by
  order_by-reverse le [] h = refl
  order_by-reverse le (x ∷ xs) h = rw (order_by-reverse le xs h.1) (
      insert_last le x (reverse xs) (All-reverse (λ s. le x s ≡ false) xs h.0)
      ∙ sym (reverse-cons x xs))

  pub last_by-drop :
      (key : R → ℕ) (n : ℕ) (rs : List R)
      → Apart (λ r s. leb (key s) (key r)) rs
      → last_by key n rs ≡ drop (length rs - n) rs
  unfolding last_by
  last_by-drop key n rs h =
      rw (order_by-reverse (λ r s. leb (key s) (key r)) rs h) (reverse-take-reverse n rs)

  All-select {κ} : (P : R → Type κ) (p : R → Bool) (xs : List R) → All P xs → All P (select p xs)
  unfolding select
  All-select P p [] h = tt
  All-select P p (x ∷ xs) h = elim (Bool-cases (p x)) [
    | inl e ↦ rw e (h.0, All-select P p xs h.1)
    | inr e ↦ rw e (All-select P p xs h.1)
  ]

  pub Apart-select :
      (le : R → R → Bool) (p : R → Bool) (xs : List R) → Apart le xs → Apart le (select p xs)
  unfolding select
  Apart-select le p [] h = tt
  Apart-select le p (x ∷ xs) h = elim (Bool-cases (p x)) [
    | inl e ↦ rw e (All-select (λ s. le x s ≡ false) p xs h.0, Apart-select le p xs h.1)
    | inr e ↦ rw e (Apart-select le p xs h.1)
  ]
