-- ===== src/Hub/Coherent/Starts.antt =====
-- A started run and its binding.
use stackhour.Prelude.{
  ◌<◌, ◌≡◌, refl, ◌∙◌, ap, inl, inr, true, false, Option, some, [], ◌∷◌, ◌++◌, arith, Bool-cases,
  is_some, str_eq, eq_refl,
}
use stackhour.Result.{Result, ok, err, Result-cases}
use stackhour.Sql
use stackhour.Sql.Laws.{first-append, first_of_exists}
use stackhour.Domain.Codec.{Codec, IsLawful, year_10000}
use stackhour.Domain.Ids.{TaskId, EventId, CommandId, NodeId, Time}
use stackhour.Domain.Event.{EventDraft}
use stackhour.Domain.Entities.{Run}
use stackhour.Domain.Protocol.{HubToNode, RunSpec}
use stackhour.Store.Db.{Db}
use stackhour.Store.Rows.{RunRow, run_row}
use stackhour.Store.Rows.Roundtrip.{row_to_run-run_row}
use stackhour.Store.Tables.{next_sequence, insert_event, insert_receipt_row, insert_run_row}
use stackhour.Store.Reads.{get_run}
use stackhour.Store.Append.{
  AppendOutcome, run_entity, append_command_bundle, append_new, write_entity,
}
use stackhour.Store.Log.Effect.{>>=-eq-ok, receipt_row}
use stackhour.Store.Atomic.{append_command_bundle-created, bundle_fresh}
use stackhour.Hub.Table
use stackhour.Hub.State.{HubState, remember_run, same_id}
use stackhour.Hub.Binding.{Stored, IsCoherent, All-remove}
use stackhour.Hub.Publish.{publish, finish_with_entity, effect_of, CommandEffect}
use stackhour.Hub.Commands
use stackhour.Hub.Commands.{Fresh}
use stackhour.Hub.Reaches.{publish-hub, publish-ok}
use stackhour.Hub.Coherent.{finish_with_entity-IsCoherent}

module _ (c : Codec) where
  -- a run that was written was not there
  insert_run-fresh :
      (r : Run) (db : Db) {x : Unit {0} × Db}
      → write_entity c (run_entity r) db ≡ ok x
      → Sql.exists (λ (s : RunRow). str_eq s.run_id (c.uuid_text r.id)) db.runs ≡ false
  unfolding write_entity insert_run_row Sql.insert
  insert_run-fresh r db h = ground arith

  append_new-fresh_run :
      (now : Time) (e : EventId) (k : CommandId) (d : EventDraft) (r : Run)
      (q : Option (NodeId × HubToNode)) (db : Db) {x : AppendOutcome × Db}
      → append_new c now e k d (run_entity r) q db ≡ ok x
      → Sql.exists (λ (s : RunRow). str_eq s.run_id (c.uuid_text r.id)) db.runs ≡ false
  unfolding append_new next_sequence insert_event insert_receipt_row Sql.insert
  append_new-fresh_run now e k d r q db h =
      let (s₁, p₁, h₁) = >>=-eq-ok next_sequence _ db h in
      let (s₂, p₂, h₂) = >>=-eq-ok (insert_event c s₁.0 e (some k) d now) _ s₁.1 h₁ in
      let (s₃, p₃, h₃) = >>=-eq-ok (insert_receipt_row (receipt_row c k s₁.0 e now)) _ s₂.1 h₂ in
      let (s₄, p₄, h₄) = >>=-eq-ok (write_entity c (run_entity r)) _ s₃.1 h₃ in
      ground (arith, insert_run-fresh r s₃.1 p₄)

  created-fresh_run :
      (now : Time) (e : EventId) (k : CommandId) (d : EventDraft) (r : Run)
      (q : Option (NodeId × HubToNode)) (db : Db) {o : AppendOutcome} {db' : Db}
      → append_command_bundle c now e k d (run_entity r) q db ≡ (ok o, db')
      → o.created ≡ true
      → Sql.exists (λ (s : RunRow). str_eq s.run_id (c.uuid_text r.id)) db.runs ≡ false
  unfolding append_command_bundle
  created-fresh_run now e k d r q db h new =
      let after = append_command_bundle-created c now e k d (run_entity r) q db h new in
      let fresh = bundle_fresh c now e k d (run_entity r) q db after.0 in
      elim (Result-cases (append_new c now e k d (run_entity r) q db)) [
        | inl (x, good) ↦ append_new-fresh_run now e k d r q db good
        | inr (x, bad) ↦ absurd (ground arith)
      ]

  module _ (lawful : IsLawful c) where
    get_run-new :
        (r : Run) (db db' : Db)
        → r.started_at < year_10000
        → Sql.exists (λ (s : RunRow). str_eq s.run_id (c.uuid_text r.id)) db.runs ≡ false
        → db'.runs ≡ db.runs ++ run_row c r ∷ []
        → get_run c r.id db' ≡ ok (some r)
    unfolding get_run Sql.first run_row
    get_run-new r db db' early fresh h =
        let same_run = λ (s : RunRow). str_eq s.run_id (c.uuid_text r.id) in
        rw (h, first-append same_run db.runs (run_row c r ∷ []))
          (ground (
            arith,
            first_of_exists same_run db.runs fresh,
            eq_refl (c.uuid_text r.id),
            row_to_run-run_row c lawful r early,
          ))

    -- the run of a command that has a dispatch is stored
    pub published-run :
        (now : Time) (e : EventId) (k : CommandId) (d : EventDraft) (r : Run)
        (q : Option (NodeId × HubToNode)) (s : HubState) (x : Result AppendOutcome) (db : Db)
        → r.started_at < year_10000
        → append_command_bundle c now e k d (run_entity r) q s.hub ≡ (x, db)
        → is_some (effect_of k q (publish c x (record s { hub = db })).0).dispatch ≡ true
        → get_run c r.id db ≡ ok (some r)
    unfolding publish
    published-run now e k d r q s (err x) db early p h = absurd (ground arith)
    published-run now e k d r q s (ok o) db early p h =
        elim (Result-cases (publish c (ok o) (record s { hub = db })).0) [
          | inr (x, bad) ↦ absurd (ground arith)
          | inl (o', good) ↦ elim (Bool-cases o'.created) [
            | inr old ↦ absurd (ground arith)
            | inl new ↦
                let made : o.created ≡ true =
                  rw (publish-ok c o (record s { hub = db }) good) new in
                let after =
                  append_command_bundle-created c now e k d (run_entity r) q s.hub p made in
                get_run-new r s.hub db early (created-fresh_run now e k d r q s.hub p made)
                  (rw after.2 refl)
          ]
        ]

    bind_run-IsCoherent :
        (r : Run) (x : CommandEffect × HubState)
        → (is_some x.0.dispatch ≡ true → get_run c r.id x.1.hub ≡ ok (some r))
        → IsCoherent c x.1
        → IsCoherent c (Commands.bind_run r.id r.node_id r.task_id x).1
    unfolding remember_run Table.insert
    bind_run-IsCoherent r (effect, s) stored v = elim (Bool-cases (is_some effect.dispatch)) [
      | inr none_asked ↦ rw none_asked v
      | inl asked ↦
          rw asked (
            (r, stored asked, refl, refl),
            All-remove same_id (Stored c s.hub) r.id s.routing.run v,
          )
    ]

    pub start_run_on-IsCoherent :
        (f : Fresh) (k : CommandId) (t : TaskId) (n : NodeId) (spec : RunSpec) (s : HubState)
        → f.created_at < year_10000
        → IsCoherent c s
        → IsCoherent c (Commands.apply_start_run_on c f k t n spec s).1
    unfolding Commands.apply_start_run_on finish_with_entity
    start_run_on-IsCoherent f k t n spec s early v =
        let (d, q, w) = Commands.started f k t n spec in
        let r = Commands.run_of_spec f t n spec in
        let a = append_command_bundle c f.received_at f.event_id k d w q s.hub in
        bind_run-IsCoherent r (finish_with_entity c f.received_at f.event_id k d q w s)
          (λ asked.
            ap (get_run c r.id) (publish-hub c a.0 (record s { hub = a.1 }))
            ∙ published-run f.received_at f.event_id k d r q s a.0 a.1 early refl asked)
          (finish_with_entity-IsCoherent c f.received_at f.event_id k d q w s v)
