-- ===== src/Store/Log/Growth.antt =====
-- The log and the receipts before and after a history of operations.
use mathlib.Core.List.{append-nil, append_assoc}
use stackhour.Prelude.{String, ◌≡◌, refl, sym, ◌∙◌, some, List, [], ◌∷◌, ◌++◌}
use stackhour.Domain.Codec.{Codec}
use stackhour.Sql.Laws.{first-append}
use stackhour.Store.Rows.{EventRow, ReceiptRow}
use stackhour.Store.Db.{Db}
use stackhour.Store.Append.{find_receipt, find_event}
use stackhour.Store.Machine.{Step, perform, history}
use stackhour.Store.Log.Change.{LogChange, unchanged, by_command, by_node, perform-LogChange}

-- The rows that `ys` has after those of `xs`.
abbrev pub Extends {ℓ} : {A : Type ℓ} → List A → List A → Type ℓ
Extends {A} xs ys = (zs : List A) × (ys ≡ xs ++ zs)

Extends-refl {ℓ} : {A : Type ℓ} (xs ys : List A) → ys ≡ xs → Extends xs ys
Extends-refl xs ys e = ([], e ∙ sym (append-nil xs))

Extends-trans {ℓ} : {A : Type ℓ} (xs ys zs : List A) → Extends xs ys → Extends ys zs → Extends xs zs
Extends-trans xs ys zs (more, p) (rest, q) = (more ++ rest, rw (q, p) (append_assoc xs more rest))

pub record Grows (a b : Db) : Type 0 where
  pub events : Extends a.events b.events
  pub receipts : Extends a.command_receipts b.command_receipts

module _ (c : Codec) where
  LogChange-Grows : {a b : Db} → LogChange c a b → Grows a b
  LogChange-Grows (unchanged s) = record {
    events = Extends-refl _ _ s.events;
    receipts = Extends-refl _ _ s.receipts;
  }
  LogChange-Grows (by_command now e k d o fresh a r) = record {
    events = (_, a.events);
    receipts = (_, r);
  }
  LogChange-Grows (by_node now e d o a r) = record {
    events = (_, a.events);
    receipts = Extends-refl _ _ r;
  }

  -- No operation removes or changes an event or a receipt.
  pub history-Grows : (ss : List Step) (db : Db) → Grows db (history c ss db)
  unfolding history
  history-Grows [] db = record { events = Extends-refl _ _ refl; receipts = Extends-refl _ _ refl }
  history-Grows (s ∷ ss) db =
      let one = LogChange-Grows (perform-LogChange c s db) in
      let more = history-Grows ss (perform c s db) in
      record {
        events = Extends-trans _ _ _ one.events more.events;
        receipts = Extends-trans _ _ _ one.receipts more.receipts;
      }

pub find_receipt-Grows :
    {a b : Db} (k : String) {r : ReceiptRow}
    → Grows a b
    → find_receipt k a ≡ some r
    → find_receipt k b ≡ some r
unfolding find_receipt
find_receipt-Grows {a} k g h = rw (g.receipts.1, first-append) (rw h)

pub find_event-Grows :
    {a b : Db} (k : String) {r : EventRow}
    → Grows a b
    → find_event k a ≡ some r
    → find_event k b ≡ some r
unfolding find_event
find_event-Grows {a} k g h = rw (g.events.1, first-append) (rw h)
