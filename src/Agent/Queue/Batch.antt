-- ===== src/Agent/Queue/Batch.antt =====
-- The batch that is sent, against its size on the wire.
use Prim.Native.String
use stackhour.Prelude.{
  ℕ, suc, ◌+◌, ◌≤◌, ◌<◌, ◌≡◌, refl, ◌∙◌, true, false, List, [], ◌∷◌, arith, Bool-cases, inl, inr,
  ◌⊎◌, length, take, ltb,
}
use stackhour.Domain.Codec.{Codec}
use stackhour.Domain.Json.{Value}
use stackhour.Agent.Queue.{take_rows, take_send_batch}

module _ (c : Codec) where
  -- the bytes of the rows, with a comma before each
  abbrev pub rows_size : List Value → ℕ
  rows_size [] = 0
  rows_size (row ∷ rows) = String.len (c.json_text row) + 1 + rows_size rows

  -- the bytes of the array of rows: its brackets, the rows, and a comma between two of them
  abbrev pub array_size : List Value → ℕ
  array_size [] = 2
  array_size (row ∷ rows) = 2 + String.len (c.json_text row) + rows_size rows

  -- `more` further rows fit, and one more would not
  pub record IsLongest (bytes budget more : ℕ) (rows : List Value) : Type 0 where
    pub within : more ≤ length rows
    pub fits : (more ≡ 0) ⊎ (bytes + rows_size (take more rows) ≤ budget)
    pub longest : (more ≡ length rows) ⊎ (budget < bytes + rows_size (take (suc more) rows))

  full_batch :
      (count bytes budget : ℕ) (row : Value) (rows : List Value)
      → ltb budget (bytes + (String.len (c.json_text row) + 1)) ≡ true
      → take_rows c (count + 1) bytes budget (row ∷ rows) ≡ count + 1
  unfolding take_rows
  full_batch count bytes budget row rows h =
      let later : ltb 0 (count + 1) ≡ true = ground arith in rw later (rw h refl)

  room_batch :
      (count bytes budget : ℕ) (row : Value) (rows : List Value)
      → ltb budget (bytes + (String.len (c.json_text row) + 1)) ≡ false
      → take_rows c (count + 1) bytes budget (row ∷ rows)
        ≡ take_rows c (count + 1 + 1) (bytes + (String.len (c.json_text row) + 1)) budget rows
  unfolding take_rows
  room_batch count bytes budget row rows h =
      let later : ltb 0 (count + 1) ≡ true = ground arith in rw later (rw h refl)

  fits_more :
      (bytes budget more : ℕ) (row : Value) (rows : List Value)
      → bytes + (String.len (c.json_text row) + 1) ≤ budget
      → (more ≡ 0)
        ⊎ (bytes + (String.len (c.json_text row) + 1) + rows_size (take more rows) ≤ budget)
      → bytes + rows_size (take (suc more) (row ∷ rows)) ≤ budget
  fits_more bytes budget more row rows room (inl none_more) =
      let nothing : rows_size (take more rows) ≡ 0 = rw none_more refl in omega (arith, nothing)
  fits_more bytes budget more row rows room (inr fits) = omega arith

  longer_more :
      (bytes budget more : ℕ) (row : Value) (rows : List Value)
      → (more ≡ length rows)
        ⊎ (budget < bytes + (String.len (c.json_text row) + 1) + rows_size (take (suc more) rows))
      → (suc more ≡ length (row ∷ rows))
        ⊎ (budget < bytes + rows_size (take (suc (suc more)) (row ∷ rows)))
  longer_more bytes budget more row rows (inl whole) = inl (omega arith)
  longer_more bytes budget more row rows (inr over) = inr (omega arith)

  take_rows-IsLongest :
      (count bytes budget : ℕ) (rows : List Value)
      → (more : ℕ) × (take_rows c (count + 1) bytes budget rows ≡ count + 1 + more)
        × IsLongest bytes budget more rows
  unfolding take_rows
  take_rows-IsLongest count bytes budget [] =
      (0, omega arith, record { within = omega arith; fits = inl refl; longest = inl refl })
  take_rows-IsLongest count bytes budget (row ∷ rows) =
      let size = String.len (c.json_text row) + 1 in
      elim (Bool-cases (ltb budget (bytes + size))) [
        | inl full ↦ (
          0,
          full_batch count bytes budget row rows full ∙ omega arith,
          record { within = omega arith; fits = inl refl; longest = inr (ground arith) },
        )
        | inr room ↦
            let (more, p, v) = take_rows-IsLongest (count + 1) (bytes + size) budget rows in
            let enough : bytes + size ≤ budget = ground arith in
            (
              suc more,
              room_batch count bytes budget row rows room ∙ p ∙ omega arith,
              record {
                within = omega (arith, v.within);
                fits = inr (fits_more bytes budget more row rows enough v.fits);
                longest = longer_more bytes budget more row rows v.longest;
              },
            )
      ]

  one_or_fits :
      (budget more : ℕ) (row : Value) (rows : List Value)
      → (more ≡ 0) ⊎ (2 + (String.len (c.json_text row) + 0) + rows_size (take more rows) ≤ budget)
      → (suc more ≤ 1) ⊎ (array_size (take (suc more) (row ∷ rows)) ≤ budget)
  one_or_fits budget more row rows (inl one) = inl (omega arith)
  one_or_fits budget more row rows (inr fits) = inr (omega arith)

  whole_or_over :
      (budget more : ℕ) (row : Value) (rows : List Value)
      → (more ≡ length rows)
        ⊎ (budget < 2 + (String.len (c.json_text row) + 0) + rows_size (take (suc more) rows))
      → (suc more ≡ length (row ∷ rows))
        ⊎ (budget < array_size (take (suc (suc more)) (row ∷ rows)))
  whole_or_over budget more row rows (inl whole) = inl (omega arith)
  whole_or_over budget more row rows (inr over) = inr (omega arith)

  -- The batch is a prefix of the pending rows. It is empty only if there are none; it is one row or
  -- its array fits the budget; and it is all of them or the array with one row more is over it.
  pub take_send_batch-bounds :
      (pending : List Value) (budget : ℕ)
      → let n = take_send_batch c pending budget in
        (n ≤ length pending)
        × ((pending ≡ []) ⊎ (1 ≤ n))
        × ((n ≤ 1) ⊎ (array_size (take n pending) ≤ budget))
        × ((n ≡ length pending) ⊎ (budget < array_size (take (suc n) pending)))
  unfolding take_send_batch take_rows
  take_send_batch-bounds [] budget = (omega arith, inl refl, inl (omega arith), inl refl)
  take_send_batch-bounds (row ∷ rows) budget =
      let (more, p, v) =
        take_rows-IsLongest 0 (2 + (String.len (c.json_text row) + 0)) budget rows in
      let n : take_rows c 1 (2 + (String.len (c.json_text row) + 0)) budget rows ≡ suc more =
        p ∙ omega arith in
      rw n (
        omega (arith, v.within),
        inr (omega arith),
        one_or_fits budget more row rows v.fits,
        whole_or_over budget more row rows v.longest,
      )
