-- ===== src/Hub/Binding.antt =====
-- Which node owns a run: the cache of bindings and the stored runs.
use stackhour.Prelude.{
  ◌≡◌, refl, ap, ◌∙◌, ◌↔◌, Bool, true, false, Option, none, some, List, [], ◌∷◌, arith, All, str_eq,
  eq_iff, ◌==◌, ==_iff, ◌&&◌, Option-cases, Bool-cases, inl, inr,
}
use stackhour.Result.{Result, ok, err}
use stackhour.Sql.Laws.{first_holds}
use stackhour.Domain.Codec.{Codec, IsLawful}
use stackhour.Domain.Ids.{TaskId, RunId, NodeId}
use stackhour.Domain.Event.{EventDraft}
use stackhour.Domain.Entities.{Run}
use stackhour.Store.Rows.{RunRow, row_to_run}
use stackhour.Store.Db.{Db}
use stackhour.Store.Reads.{get_run, optional-some}
use stackhour.Hub.Table
use stackhour.Hub.State.{HubState, same_id, remember_run, run_binding_checked, accepts_node_event}

module _ {ℓ κ λ'} {K : Type ℓ} {V : Type κ} (same : K → K → Bool) (P : K × V → Type λ') where
  pub All-remove : (k : K) (rows : List (K × V)) → All P rows → All P (Table.remove same k rows)
  unfolding Table.remove
  All-remove k [] h = tt
  All-remove k ((j, v) ∷ rest) h = elim (Bool-cases (same j k)) [
    | inl e ↦ rw e (All-remove k rest h.1)
    | inr e ↦ rw e (h.0, All-remove k rest h.1)
  ]

  get-All :
      (k : K) (rows : List (K × V)) {v : V}
      → All P rows
      → Table.get same k rows ≡ some v
      → (j : K) × (w : V) × (same j k ≡ true) × (w ≡ v) × P (j, w)
  unfolding Table.get
  get-All k [] h e = absurd (ground arith)
  get-All k ((j, w) ∷ rest) h e = elim (Bool-cases (same j k)) [
    | inl p ↦ (j, w, p, ground arith, h.0)
    | inr p ↦ get-All k rest h.1 (rw p at e)
  ]

owner_test :
    {A B C : Type 0} {a b d : Bool}
    → (a ≡ true) ↔ A
    → (b ≡ true) ↔ B
    → (d ≡ true) ↔ C
    → (ok (a && (b && d)) ≡ ok true) ↔ (A × B × C)
owner_test {a = true} {b = true} {d = true} p q r = (λ h. (p.0 refl, q.0 refl, r.0 refl), λ h. refl)
owner_test {a = true} {b = true} {d = false} p q r =
    (λ h. absurd (ground arith), λ h. absurd (ground (arith, r.1 h.2)))
owner_test {a = true} {b = false} {d} p q r =
    (λ h. absurd (ground arith), λ h. absurd (ground (arith, q.1 h.1)))
owner_test {a = false} {b} {d} p q r =
    (λ h. absurd (ground arith), λ h. absurd (ground (arith, p.1 h.0)))

abbrev pub binding_of : Result (Option Run) → Result (Option (NodeId × TaskId))
binding_of (err e) = err e
binding_of (ok none) = ok none
binding_of (ok (some r)) = ok (some (r.node_id, r.task_id))

module _ (c : Codec) where
  -- a cached binding is that of the stored run
  abbrev pub Stored : Db → RunId × (NodeId × TaskId) → Type 0
  Stored db (id, (node_id, task_id)) =
      (r : Run) × (get_run c id db ≡ ok (some r)) × (r.node_id ≡ node_id) × (r.task_id ≡ task_id)

  abbrev pub IsCoherent : HubState → Type 0
  IsCoherent s = All (Stored s.hub) s.routing.run

  row_to_run_id :
      IsLawful c
      → (id : RunId) (row : RunRow) {r : Run} → row.run_id ≡ c.uuid_text id
      → row_to_run c row ≡ ok r
      → r.id ≡ id
  unfolding row_to_run
  row_to_run_id lawful id row e h = ground (arith, lawful.uuid_round id)

  get_run_id :
      IsLawful c → (id : RunId) (db : Db) {r : Run} → get_run c id db ≡ ok (some r) → r.id ≡ id
  unfolding get_run
  get_run_id lawful id db h =
      let (row, p, q) = optional-some (row_to_run c) _ h in
      row_to_run_id lawful id row
        ((eq_iff row.run_id (c.uuid_text id)).0
          (first_holds (λ (r : RunRow). str_eq r.run_id (c.uuid_text id)) db.runs p))
        q

  -- While the cache agrees with the stored runs, a run's binding is the node and the task of its
  -- stored run, cached or not.
  pub run_binding_checked-stored :
      (id : RunId) (s : HubState)
      → IsCoherent s
      → (run_binding_checked c id s).0 ≡ binding_of (get_run c id s.hub)
  unfolding run_binding_checked
  run_binding_checked-stored id s v = elim (Option-cases (Table.get same_id id s.routing.run)) [
    | inl missing ↦ uncached missing (get_run c id s.hub) refl
    | inr (b, seen) ↦
        let (j, (n, t), p, q, (r, stored, e, f)) =
          get-All same_id (Stored s.hub) id s.routing.run v seen in
        ground (arith, (==_iff j id).0 p)
  ]
    where
      uncached :
          Table.get same_id id s.routing.run ≡ none
          → (x : Result (Option Run)) → get_run c id s.hub ≡ x
          → (run_binding_checked c id s).0 ≡ binding_of (get_run c id s.hub)
      uncached missing (err e) h = ground arith
      uncached missing (ok none) h = ground arith
      uncached missing (ok (some r)) h = ground arith

  -- Reading a binding keeps the cache in agreement.
  pub run_binding_checked-IsCoherent :
      (id : RunId) (s : HubState)
      → IsLawful c
      → IsCoherent s
      → IsCoherent (run_binding_checked c id s).1
  unfolding run_binding_checked remember_run Table.insert
  run_binding_checked-IsCoherent id s lawful v =
      elim (Option-cases (Table.get same_id id s.routing.run)) [
        | inl missing ↦ uncached missing (get_run c id s.hub) refl
        | inr (b, seen) ↦ rw (run_binding_checked, seen) v
      ]
    where
      uncached :
          Table.get same_id id s.routing.run ≡ none
          → (x : Result (Option Run)) → get_run c id s.hub ≡ x
          → IsCoherent (run_binding_checked c id s).1
      uncached missing (err e) h = rw (run_binding_checked, missing) (rw h v)
      uncached missing (ok none) h = rw (run_binding_checked, missing) (rw h v)
      uncached missing (ok (some r)) h =
          rw (run_binding_checked, missing)
            (rw h (
              (
                r,
                ap (λ (i : RunId). get_run c i s.hub) (get_run_id lawful id s.hub h) ∙ h,
                refl,
                refl,
              ),
              All-remove same_id (Stored s.hub) r.id s.routing.run v,
            ))

  owner_answer :
      (n : NodeId) (d : EventDraft) (s : HubState) {run : RunId} {r : Run}
      → IsCoherent s
      → d.run_id ≡ some run
      → get_run c run s.hub ≡ ok (some r)
      → (accepts_node_event c n d s).0
        ≡ ok (str_eq d.node_id n && (str_eq r.node_id n && (r.task_id == d.task_id)))
  unfolding accepts_node_event
  owner_answer n d s {run} v e stored =
      let bound = run_binding_checked-stored run s v in rw e (ground (arith, bound, stored))

  -- The hub accepts an event of a stored run from a node if and only if the event names the node
  -- as its source, the run was started on that node, and the event names the run's task.
  pub accepts_node_event-owner :
      (n : NodeId) (d : EventDraft) (s : HubState) {run : RunId} {r : Run}
      → IsCoherent s
      → d.run_id ≡ some run
      → get_run c run s.hub ≡ ok (some r)
      → ((accepts_node_event c n d s).0 ≡ ok true)
        ↔ ((d.node_id ≡ n) × (r.node_id ≡ n) × (r.task_id ≡ d.task_id))
  accepts_node_event-owner n d s {run} {r} v e stored =
      rw (owner_answer n d s v e stored)
        (owner_test (eq_iff d.node_id n) (eq_iff r.node_id n) (==_iff r.task_id d.task_id))
