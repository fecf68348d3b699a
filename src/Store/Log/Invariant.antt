-- ===== src/Store/Log/Invariant.antt =====
-- The log's invariant, on the tables `events` and `command_receipts` of crates/stackhour-domain/src/store.rs.
use stackhour.Prelude.{
  ℕ, suc, ◌+◌, String, ◌≡◌, refl, none, some, List, [], ◌∷◌, ◌++◌, map, arith, length, ◌⊎◌, inl,
}
use mathlib.Core.List.{map-append, append-nil}
use stackhour.Sql.{max_of}
use stackhour.Domain.Codec.{Codec}
use stackhour.Store.Rows.{EventRow, ReceiptRow, event_row}
use stackhour.Store.Db.{Db, empty}
use stackhour.Store.Tables.{head}
use stackhour.Store.Machine.{Step, perform, history}
use stackhour.Store.Log.Change.{LogChange, unchanged, by_command, by_node, perform-LogChange}

-- The sequences are n, n + 1, n + 2, … in the order of the rows.
abbrev pub Gapless : ℕ → List EventRow → Type 0
Gapless n [] = Unit {0}
Gapless n (r ∷ rs) = (r.sequence ≡ n) × Gapless (suc n) rs

-- The events that commands caused: the command, the sequence and the event.
abbrev pub commanded : List EventRow → List (String × ℕ × String)
commanded [] = []
commanded (r ∷ rs) =
    let rest = commanded rs in
    elim r.command_id [ none ↦ rest | some k ↦ (k, r.sequence, r.event_id) ∷ rest ]

abbrev pub receipt_key : ReceiptRow → String × ℕ × String
receipt_key r = (r.command_id, r.sequence, r.event_id)

pub record IsConsistent (db : Db) : Type 0 where
  pub gapless : Gapless 1 db.events
  pub receipts : map receipt_key db.command_receipts ≡ commanded db.events

max_of-Gapless :
    (n : ℕ) (rs : List EventRow)
    → Gapless (suc n) rs
    → ((length rs ≡ 0) × (max_of (λ (r : EventRow). r.sequence) rs ≡ 0))
      ⊎ (max_of (λ (r : EventRow). r.sequence) rs ≡ n + length rs)
unfolding max_of
max_of-Gapless n [] h = inl (refl, refl)
max_of-Gapless n (r ∷ rs) h = ground (arith, max_of-Gapless (suc n) rs h.1)

-- In a log without gaps the highest sequence is the number of events.
pub head-Gapless : (db : Db) → Gapless 1 db.events → head db ≡ length db.events
unfolding head
head-Gapless db h = ground (arith, max_of-Gapless 0 db.events h)

pub Gapless-append :
    (n : ℕ) (rs : List EventRow) (r : EventRow)
    → Gapless n rs
    → r.sequence ≡ n + length rs
    → Gapless n (rs ++ r ∷ [])
Gapless-append n [] r h e = (omega arith, tt)
Gapless-append n (x ∷ rs) r h e = (h.0, Gapless-append (suc n) rs r h.1 (omega arith))

commanded-append : (xs ys : List EventRow) → commanded (xs ++ ys) ≡ commanded xs ++ commanded ys
commanded-append [] ys = refl
commanded-append (x ∷ xs) ys = ground (arith, commanded-append xs ys)

module _ (c : Codec) where
  LogChange-IsConsistent : {db db' : Db} → LogChange c db db' → IsConsistent db → IsConsistent db'
  LogChange-IsConsistent (unchanged s) v = ground arith
  LogChange-IsConsistent {db} {db'} (by_command now e k d o fresh a b) v = record {
    gapless = rw a.events (
        unfold event_row in
        Gapless-append 1 db.events _ v.gapless (omega (arith, head-Gapless db v.gapless)));
    receipts =
        rw (a.events, b) (unfold event_row in simp (map-append, commanded-append, v.receipts));
  }
  LogChange-IsConsistent {db} {db'} (by_node now e d o a b) v = record {
    gapless = rw a.events (
        unfold event_row in
        Gapless-append 1 db.events _ v.gapless (omega (arith, head-Gapless db v.gapless)));
    receipts =
        rw (a.events, b) (unfold event_row in simp (commanded-append, v.receipts, append-nil));
  }

  -- Every sequence of the store's operations, failing ones included, keeps the log consistent: the
  -- sequences run from 1 with no gap, in the order of the rows, and the receipts are just the
  -- commands of the log's events, each with its event's sequence and id.
  pub history-IsConsistent :
      (ss : List Step) {db : Db} → IsConsistent db → IsConsistent (history c ss db)
  unfolding history
  history-IsConsistent [] v = v
  history-IsConsistent (s ∷ ss) {db} v =
      history-IsConsistent ss {db = perform c s db}
        (LogChange-IsConsistent (perform-LogChange c s db) v)

-- The database after any operations, from the tables that the migrations create.
pub empty-IsConsistent : IsConsistent empty
empty-IsConsistent = record { gapless = tt; receipts = refl }
