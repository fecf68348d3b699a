-- ===== src/Store/Log/Tail.antt =====
-- What the queries of the log return: `events_after`, `recent_events` and `head_sequence`.
use native.Mathlib.Nat.{add-zero, add-suc, suc-add}
use stackhour.Prelude.{
  ℕ, zero, suc, ◌+◌, ◌-◌, ◌≤◌, ◌≡◌, refl, ap, ◌∙◌, Bool, true, false, List, [], ◌∷◌, ◌++◌, arith,
  length, drop, leb, ltb_ℤ, ℤ, pos, negsuc, All, str_eq,
}
use stackhour.Sql
use stackhour.Sql.{select, order_by, last_by}
use stackhour.Sql.Laws.{Sorted, order_by-Sorted}
use stackhour.Sql.Order.{Apart, last_by-drop, Apart-select}
use stackhour.Store.Log.Growth.{history-Grows}
use stackhour.Domain.Ids.{TaskId}
use stackhour.Domain.Codec.{Codec}
use stackhour.Store.Rows.{EventRow, row_to_event}
use stackhour.Store.Db.{Db}
use stackhour.Store.Tables.{head}
use stackhour.Store.Reads.{rows_after, recent_events, task_events_tail, task_rows}
use stackhour.Store.Machine.{Step, history}
use stackhour.Store.Log.Invariant.{Gapless, IsConsistent, head-Gapless, history-IsConsistent}

abbrev by_sequence : EventRow → EventRow → Bool
by_sequence r s = leb r.sequence s.sequence

Gapless-Sorted : (n : ℕ) (rs : List EventRow) → Gapless n rs → Sorted by_sequence rs
Gapless-Sorted n [] h = tt
Gapless-Sorted n (r ∷ []) h = tt
Gapless-Sorted n (r ∷ s ∷ rs) h = (ground arith, Gapless-Sorted (suc n) (s ∷ rs) h.1)

Gapless-drop : (k n : ℕ) (rs : List EventRow) → Gapless n rs → Gapless (n + k) (drop k rs)
Gapless-drop zero n rs h = rw (add-zero) h
Gapless-drop (suc k) n [] h = tt
Gapless-drop (suc k) n (r ∷ rs) h = rw (add-suc, ← suc-add) (Gapless-drop k (suc n) rs h.1)

-- All rows of a gapless list are above what is below its first sequence.
select_all :
    (after : ℤ) (n : ℕ) (rs : List EventRow)
    → Gapless n rs
    → ltb_ℤ after (pos n) ≡ true
    → select (λ (r : EventRow). ltb_ℤ after (pos r.sequence)) rs ≡ rs
unfolding select
select_all after n [] h t = refl
select_all after n (r ∷ rs) h t = ground (arith, select_all after (suc n) rs h.1)

select_tail :
    (k n m : ℕ) (rs : List EventRow)
    → Gapless (suc n) rs
    → m ≡ n + k
    → select (λ (r : EventRow). ltb_ℤ (pos m) (pos r.sequence)) rs ≡ drop k rs
unfolding select
select_tail zero n m rs h e = select_all (pos m) (suc n) rs h (ground arith)
select_tail (suc k) n m [] h e = refl
select_tail (suc k) n m (r ∷ rs) h e = ground (arith, select_tail k (suc n) m rs h.1 (omega arith))

-- The catch-up query returns the rows that follow the cursor, as they stand in the log.
pub rows_after-drop : (k : ℕ) (db : Db) → IsConsistent db → rows_after (pos k) db ≡ drop k db.events
unfolding rows_after
rows_after-drop k db v = rw (select_tail k 0 k db.events v.gapless (omega arith)) (
    order_by-Sorted by_sequence (drop k db.events)
      (Gapless-Sorted (1 + k) (drop k db.events) (Gapless-drop k 1 db.events v.gapless)))

-- A cursor below 0 asks for the whole log.
pub rows_after-negative : (m : ℕ) (db : Db) → IsConsistent db → rows_after (negsuc m) db ≡ db.events
unfolding rows_after
rows_after-negative m db v =
    rw (select_all (negsuc m) 1 db.events v.gapless (ground arith))
      (order_by-Sorted by_sequence db.events (Gapless-Sorted 1 db.events v.gapless))

Gapless-above :
    (m n : ℕ) (rs : List EventRow)
    → Gapless n rs
    → suc m ≤ n
    → All (λ (s : EventRow). leb s.sequence m ≡ false) rs
Gapless-above m n [] h b = tt
Gapless-above m n (r ∷ rs) h b = (ground arith, Gapless-above m (suc n) rs h.1 (omega arith))

Gapless-Apart :
    (n : ℕ) (rs : List EventRow)
    → Gapless n rs
    → Apart (λ (r s : EventRow). leb s.sequence r.sequence) rs
Gapless-Apart n [] h = tt
Gapless-Apart n (r ∷ rs) h =
    (Gapless-above r.sequence (suc n) rs h.1 (omega arith), Gapless-Apart (suc n) rs h.1)

module _ (c : Codec) (db : Db) (v : IsConsistent db) where
  -- `recent_events` is the end of the log, in the log's order.
  pub recent_events-drop :
      (limit : ℕ)
      → recent_events c limit db
        ≡ Sql.collect (row_to_event c) (drop (length db.events - limit) db.events)
  unfolding recent_events
  recent_events-drop limit = ap (Sql.collect (row_to_event c)) (
      last_by-drop (λ (r : EventRow). r.sequence) limit db.events
        (Gapless-Apart 1 db.events v.gapless))

  -- `task_events_tail` is the end of the task's part of the log.
  pub task_events_tail-drop :
      (task_id : TaskId) (limit : ℕ)
      → let rows = task_rows (c.uuid_text task_id) db in
        task_events_tail c task_id limit db
        ≡ Sql.collect (row_to_event c) (drop (length rows - limit) rows)
  unfolding task_events_tail task_rows
  task_events_tail-drop task_id limit = ap (Sql.collect (row_to_event c)) (
      last_by-drop (λ (r : EventRow). r.sequence) limit _
        (Apart-select _ (λ (r : EventRow). str_eq r.task_id (c.uuid_text task_id)) db.events
          (Gapless-Apart 1 db.events v.gapless)))

drop-append {ℓ} : {A : Type ℓ} (xs ys : List A) → drop (length xs) (xs ++ ys) ≡ ys
drop-append [] ys = refl
drop-append (x ∷ xs) ys = drop-append xs ys

-- A subscriber that has the log up to the head reads, after any further operations, just the rows
-- that they added.
pub catch_up :
    (c : Codec) (ss : List Step) (db : Db)
    → IsConsistent db
    → (new : List EventRow) × ((history c ss db).events ≡ db.events ++ new)
      × (rows_after (pos (head db)) (history c ss db) ≡ new)
catch_up c ss db v =
    let (new, e) = (history-Grows c ss db).events in
    (
      new,
      e,
      rows_after-drop (head db) (history c ss db) (history-IsConsistent c ss v)
          ∙ rw (e, head-Gapless db v.gapless) (drop-append db.events new),
    )
