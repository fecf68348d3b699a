-- ===== src/Store/Log/Effect.antt =====
-- The log after a successful append of crates/stackhour-domain/src/store.rs, in one equation for each kind.
use stackhour.Prelude.{
  ℕ, ◌+◌, ◌≤◌, ◌≡◌, refl, true, false, Option, none, some, [], ◌∷◌, ◌++◌, arith,
}
use stackhour.Result.{Result, ok, err}
use stackhour.Sql
use stackhour.Domain.Codec.{Codec}
use stackhour.Domain.Ids.{EventId, CommandId, NodeId, Time}
use stackhour.Domain.Event.{EventDraft}
use stackhour.Domain.Protocol.{HubToNode}
use stackhour.Store.Rows.{ReceiptRow, event_row}
use stackhour.Store.Db.{Db, Tx, ◌>>=◌}
use stackhour.Store.Tables.{
  head, next_sequence, insert_event, insert_receipt_row, same_event, i64_max,
}
use stackhour.Store.Append.{
  AppendOutcome, EntityWrite, write_entity, write_dispatch, append_new, append_fresh_node_event,
  apply_terminal_lifecycle_and_wake,
}
use stackhour.Store.Log.Frame.{write_entity-SameLog, write_dispatch-SameLog, terminal-SameLog}

-- Inversion of a successful step of a transaction.
bind_cases :
    {A B : Type 0} (m : Tx A) (f : A → Tx B) (db : Db) {r : B × Db} (x : Result (A × Db))
    → m db ≡ x
    → (m >>= f) db ≡ ok r
    → (s : A × Db) × (m db ≡ ok s) × (f s.0 s.1 ≡ ok r)
bind_cases m f db (ok s) e h = (s, e, rw (e, ◌>>=◌) at h)
bind_cases m f db (err x) e h = ground arith

pub >>=-eq-ok :
    {A B : Type 0} (m : Tx A) (f : A → Tx B) (db : Db) {r : B × Db}
    → (m >>= f) db ≡ ok r
    → (s : A × Db) × (m db ≡ ok s) × (f s.0 s.1 ≡ ok r)
>>=-eq-ok m f db h = bind_cases m f db (m db) refl h

module _ (c : Codec) where
  -- the row that a command's receipt is
  abbrev pub receipt_row : CommandId → ℕ → EventId → Time → ReceiptRow
  receipt_row command_id sequence event_id received_at = record {
    command_id = c.uuid_text command_id;
    sequence = sequence;
    event_id = c.uuid_text event_id;
    received_at = c.time_text received_at;
  }

  -- the two rows that a new command adds, under the sequence `n`
  pub record Appended (n : ℕ) (e : EventId) (k : Option CommandId) (d : EventDraft) (now : Time)
      (db db' : Db) (o : AppendOutcome) : Type 0 where
    pub outcome : o ≡ record { sequence = n; event_id = e; created = true }
    pub fresh : Sql.exists (same_event (event_row c n e k d now)) db.events ≡ false
    pub room : n ≤ i64_max
    pub events : db'.events ≡ db.events ++ event_row c n e k d now ∷ []

  pub append_new_lem :
      (now : Time) (e : EventId) (k : CommandId) (d : EventDraft) (w : EntityWrite)
      (q : Option (NodeId × HubToNode)) (db : Db) {o : AppendOutcome} {db' : Db}
      → append_new c now e k d w q db ≡ ok (o, db')
      → Appended (head db + 1) e (some k) d now db db' o
        × (db'.command_receipts ≡ db.command_receipts ++ receipt_row k (head db + 1) e now ∷ [])
  unfolding append_new next_sequence insert_event insert_receipt_row Sql.insert
  append_new_lem now e k d w q db h =
      let (s₁, p₁, h₁) = >>=-eq-ok next_sequence _ db h in
      let (s₂, p₂, h₂) = >>=-eq-ok (insert_event c s₁.0 e (some k) d now) _ s₁.1 h₁ in
      let (s₃, p₃, h₃) = >>=-eq-ok (insert_receipt_row (receipt_row k s₁.0 e now)) _ s₂.1 h₂ in
      let (s₄, p₄, h₄) = >>=-eq-ok (write_entity c w) _ s₃.1 h₃ in
      let (s₅, p₅, h₅) = >>=-eq-ok (write_dispatch c k q now) _ s₄.1 h₄ in
      ground (arith, write_entity-SameLog c w s₃.1 p₄, write_dispatch-SameLog c k q now s₄.1 p₅)

  pub append_fresh_node_event_lem :
      (now : Time) (e : EventId) (d : EventDraft) (db : Db) {o : AppendOutcome} {db' : Db}
      → append_fresh_node_event c now e d db ≡ ok (o, db')
      → Appended (head db + 1) e none d now db db' o × (db'.command_receipts ≡ db.command_receipts)
  unfolding append_fresh_node_event next_sequence insert_event Sql.insert
  append_fresh_node_event_lem now e d db h =
      let (s₁, p₁, h₁) = >>=-eq-ok next_sequence _ db h in
      let (s₂, p₂, h₂) = >>=-eq-ok (insert_event c s₁.0 e none d now) _ s₁.1 h₁ in
      let (s₃, p₃, h₃) = >>=-eq-ok (apply_terminal_lifecycle_and_wake c e s₁.0 d now) _ s₂.1 h₂ in
      ground (arith, terminal-SameLog c e s₁.0 d now s₂.1 p₃)
