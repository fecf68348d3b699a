-- ===== src/Hub/Sound.antt =====
-- The hub's tables and its cache of bindings through its operations.
pub mod Links
pub mod Steps
use stackhour.Prelude.{
  ℕ, ◌<◌, String, ◌≡◌, refl, sym, ◌∙◌, ap, inl, inr, Bool, true, false, Option, none, some, List,
  [], ◌∷◌, arith, Bool-cases, All, ◌⊎◌,
}
use stackhour.Result.{Result, ok, err, Result-cases, Error}
use stackhour.Domain.Codec.{Codec, IsLawful, year_10000}
use stackhour.Domain.Ids.{TaskId, RunId, EventId, CommandId, NodeId, Time}
use stackhour.Domain.Event.{EventDraft, Event}
use stackhour.Domain.Protocol.{HubToNode, ClientCommand, HubToClient}
use stackhour.Store.Db.{Db}
use stackhour.Store.Append.{AppendOutcome, EntityWrite}
use stackhour.Store.Wakes.{register_assistant_worker}
use stackhour.Store.Machine
use stackhour.Store.Machine.{history, perform}
use stackhour.Store.Log.Invariant.{IsConsistent, history-IsConsistent}
use stackhour.Hub.State.{HubState, route_to_node}
use stackhour.Hub.Publish.{
  CommandEffect, append_and_broadcast_command, append_and_broadcast_node_event, fetch_event,
}
use stackhour.Hub.Commands
use stackhour.Hub.Commands.{Fresh, apply_command_inner, route_dispatch, run_binding}
use stackhour.Hub.Act.{Act, ◌>>=◌, ◌>>◌, continue, give, read, write, checked, unless}
use stackhour.Hub.Worker.{
  applied, event_at, event_from_effect, event_from_effect_without_routing, schedule_execution_node,
  track, route_effect,
}
use stackhour.Hub.Binding.{IsCoherent}
use stackhour.Hub.Reaches.{
  Reaches, Reaches-refl, Reaches-step, publish-hub, route_to_node-hub, apply_command_inner-Reaches,
}
use stackhour.Hub.Coherent.{Reaches-IsCoherent, publish-routing}
use stackhour.Hub.Coherent.Handlers.{apply_command_inner-IsCoherent}

module _ (c : Codec) where
  -- the log is consistent, and every cached binding is that of the stored run
  abbrev pub IsSound : HubState → Type 0
  IsSound s = IsConsistent s.hub × IsCoherent c s

  pub Reaches-IsSound :
      (s t : HubState) → Reaches c s.hub t.hub → t.routing ≡ s.routing → IsSound s → IsSound t
  Reaches-IsSound s t (ss, e) same v =
      (rw e (history-IsConsistent c ss v.0), Reaches-IsCoherent c s t (ss, e) same v.1)

  -- an operation leaves a sound hub sound
  abbrev pub Preserves {ℓ} : {A : Type ℓ} → Act A → Type 0
  Preserves m = (s : HubState) → IsSound s → IsSound (m s).1

  pub bind-Preserves :
      {A B : Type 0} (m : Act A) (f : A → Act B)
      → Preserves m
      → ((a : A) → Preserves (f a))
      → Preserves (m >>= f)
  unfolding ◌>>=◌
  bind-Preserves {A} {B} m f first then s v = next (m s) (first s v)
    where
      next : (x : Result A × HubState) → IsSound x.1 → IsSound (continue f x).1
      next (ok a, t) w = then a t w
      next (err e, t) w = w

  pub then-Preserves :
      {B : Type 0} (m : Act (Unit {0})) (k : Act B) → Preserves m → Preserves k → Preserves (m >> k)
  unfolding ◌>>◌
  then-Preserves m k first last = bind-Preserves m _ first (λ u. last)

  pub give-Preserves : {A : Type 0} (r : Result A) → Preserves (give r)
  unfolding give
  give-Preserves r s v = v

  pub read-Preserves : {A : Type 0} (f : Db → Result A) → Preserves (read f)
  unfolding read
  read-Preserves f s v = v

  pub checked-Preserves : (x : Option String) → Preserves (checked x)
  unfolding checked
  checked-Preserves none s v = v
  checked-Preserves (some m) s v = v

  pub unless-Preserves : (test : Bool) (e : Error) → Preserves (unless test e)
  unfolding unless
  unless-Preserves true e s v = v
  unless-Preserves false e s v = v

  pub route_to_node-IsSound :
      (n : NodeId) (m : HubToNode) (s : HubState) → IsSound s → IsSound (route_to_node n m s).1
  unfolding route_to_node
  route_to_node-IsSound n m s v =
      Reaches-IsSound s (route_to_node n m s).1 (Reaches-refl c _ _ (route_to_node-hub c n m s))
        (ground arith) v

  pub route_dispatch-IsSound :
      (q : Option (NodeId × HubToNode)) (s : HubState) → IsSound s → IsSound (route_dispatch q s)
  route_dispatch-IsSound none s v = v
  route_dispatch-IsSound (some (n, m)) s v = route_to_node-IsSound n m s v

  pub route_effect-Preserves : (e : CommandEffect) → Preserves (route_effect e)
  unfolding route_effect
  route_effect-Preserves e s v = route_dispatch-IsSound e.dispatch s v

  pub command-Preserves :
      (now : Time) (e : EventId) (k : CommandId) (d : EventDraft) (w : EntityWrite)
      (q : Option (NodeId × HubToNode))
      → Preserves (append_and_broadcast_command c now e k d w q)
  unfolding append_and_broadcast_command perform
  command-Preserves now e k d w q s v =
      Reaches-IsSound s (append_and_broadcast_command c now e k d w q s).1
        (Reaches-step c (Machine.command now e k d w q) _ _ (publish-hub c _ _))
        (publish-routing c _ _) v

  pub node_event-Preserves :
      (now : Time) (e : EventId) (d : EventDraft)
      → Preserves (append_and_broadcast_node_event c now e d)
  unfolding append_and_broadcast_node_event perform
  node_event-Preserves now e d s v =
      Reaches-IsSound s (append_and_broadcast_node_event c now e d s).1
        (Reaches-step c (Machine.node_event now e d) _ _ (publish-hub c _ _))
        (publish-routing c _ _) v

  pub worker-Preserves :
      (now : Time) (channel : String) (t : TaskId)
      → Preserves (write (register_assistant_worker c now channel t))
  unfolding perform write
  worker-Preserves now channel t s v =
      Reaches-IsSound s (write (register_assistant_worker c now channel t) s).1
        (Reaches-step c (Machine.worker now channel t) _ _ refl) refl v

  pub track-Preserves :
      (now : Time) (channel : Option String) (t : TaskId) → Preserves (track c now channel t)
  unfolding track
  track-Preserves now none t s v = v
  track-Preserves now (some channel) t s v = worker-Preserves now channel t s v

  pub event_at-Preserves : (n : ℕ) → Preserves (event_at c n)
  unfolding event_at
  event_at-Preserves n =
      bind-Preserves (read (fetch_event c n)) _ (read-Preserves _) (λ e. give-Preserves _)

  pub event_from_effect-Preserves : (e : CommandEffect) → Preserves (event_from_effect c e)
  unfolding event_from_effect
  event_from_effect-Preserves e =
      bind-Preserves (route_effect e) _ (route_effect-Preserves e) event_at-Preserves

  pub without_routing-Preserves :
      (e : CommandEffect) → Preserves (event_from_effect_without_routing c e)
  unfolding event_from_effect_without_routing
  without_routing-Preserves e = bind-Preserves (give _) _ (give-Preserves _) event_at-Preserves

  pub schedule-Preserves :
      (engine : String) (n : Option NodeId) → Preserves (schedule_execution_node c engine n)
  unfolding schedule_execution_node
  schedule-Preserves engine n s v = v

  pub applied-Preserves :
      IsLawful c
      → (f : Fresh) (cmd : ClientCommand) (reserved : Option NodeId) → f.created_at < year_10000
      → Preserves (applied c f cmd reserved)
  unfolding applied
  applied-Preserves lawful f cmd reserved early s v = (
    Reaches-IsConsistent s.hub _ (apply_command_inner-Reaches c f cmd reserved s) v.0,
    apply_command_inner-IsCoherent c lawful f cmd reserved s early v.1,
  )
    where
      Reaches-IsConsistent : (a b : Db) → Reaches c a b → IsConsistent a → IsConsistent b
      Reaches-IsConsistent a b (ss, e) w = rw e (history-IsConsistent c ss w)
