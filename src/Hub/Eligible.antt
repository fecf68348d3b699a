-- ===== src/Hub/Eligible.antt =====
-- The node that a run is placed on.
use mathlib.Core.Path.{subst}
use stackhour.Prelude.{
  String, ◌≡◌, refl, sym, ap, ◌⊎◌, true, Option, none, some, List, [], ◌∷◌, ◌++◌, arith, inl, inr,
  is_some, str_eq, eq_iff, Bool-cases, All,
}
use stackhour.Result.{Result-cases, ok, err, Error}
use stackhour.Sql
use stackhour.Domain.Codec.{Codec}
use stackhour.Domain.Ids.{NodeId}
use stackhour.Domain.Entities.{Node}
use stackhour.Domain.Protocol.{ProtocolError, invalid_request, no_eligible_node}
use stackhour.Store.Reads.{list_nodes}
use stackhour.Hub.Table
use stackhour.Hub.State.{HubState}
use stackhour.Hub.Accepts.{Accepts, node_accepts_engine-Accepts, Accepts-node_accepts_engine}
use stackhour.Hub.Commands.{eligible_execution_node, eligible, wanted}

-- a node that may run the engine: the preferred one if there is one, connected, and willing
pub record IsEligible (engine : String) (preferred : Option NodeId) (s : HubState) (node : Node)
    : Type 0 where
  pub preference : (wish : NodeId) → preferred ≡ some wish → wish ≡ node.id
  pub connection : is_some (Table.get str_eq node.id s.nodes) ≡ true
  pub willing : Accepts node.capabilities engine

module _ (engine : String) where
  module _ (preferred : Option NodeId) (s : HubState) where
    eligible-IsEligible :
        (node : Node) → eligible engine preferred s node ≡ true → IsEligible engine preferred s node
    eligible-IsEligible node h = record {
      preference = wish_lem preferred h;
      connection = ground arith;
      willing = node_accepts_engine-Accepts engine node.capabilities (ground arith);
    }
      where
        wish_lem :
            (o : Option NodeId)
            → eligible engine o s node ≡ true
            → (wish : NodeId) → o ≡ some wish
            → wish ≡ node.id
        wish_lem none h wish e = absurd (ground arith)
        wish_lem (some p) h wish e = ground (arith, eq_iff p node.id)

    IsEligible-eligible :
        (node : Node) → IsEligible engine preferred s node → eligible engine preferred s node ≡ true
    IsEligible-eligible node v =
        rw
          (
            wish_lem preferred v.preference,
            v.connection,
            Accepts-node_accepts_engine engine node.capabilities v.willing,
          )
          refl
      where
        wish_lem :
            (o : Option NodeId)
            → ((wish : NodeId) → o ≡ some wish → wish ≡ node.id)
            → wanted o node.id ≡ true
        wish_lem none h = refl
        wish_lem (some p) h = (eq_iff p node.id).1 (h p refl)

    abbrev pub Passed : List Node → Type 0
    Passed nodes = All (λ (node : Node). ¬ IsEligible engine preferred s node) nodes

    -- the first eligible node of the list, with those before it
    abbrev pub Choice : List Node → Option Node → Type 0
    Choice nodes none = Passed nodes
    Choice nodes (some node) =
        (before : List Node) × (after : List Node) × (nodes ≡ before ++ node ∷ after)
        × Passed before
        × IsEligible engine preferred s node

    first-Choice :
        (nodes : List Node) → Choice nodes (Sql.first (eligible engine preferred s) nodes)
    unfolding Sql.first
    first-Choice [] = tt
    first-Choice (node ∷ nodes) = elim (Bool-cases (eligible engine preferred s node)) [
      | inl fits ↦ rw fits ([], nodes, refl, tt, eligible-IsEligible node fits)
      | inr unfit ↦ rw unfit (
          skipped (Sql.first (eligible engine preferred s) nodes)
            (λ v. absurd (cc (IsEligible-eligible node v, unfit))) (first-Choice nodes))
    ]
      where
        skipped :
            (o : Option Node)
            → ¬ IsEligible engine preferred s node
            → Choice nodes o
            → Choice (node ∷ nodes) o
        skipped none unfit h = (unfit, h)
        skipped (some found) unfit (before, after, e, passed, v) =
            (node ∷ before, after, ap (λ (ns : List Node). node ∷ ns) e, (unfit, passed), v)

module _ (c : Codec) (engine : String) (preferred : Option NodeId) (s : HubState) where
  -- What the placement of a run answers: the id of the first node of the registry's list that is
  -- eligible; or that no node of the list is, or that the list cannot be read.
  abbrev pub Placement : NodeId ⊎ ProtocolError → Type 0
  Placement (inl id) =
      (node : Node) × (nodes : List Node) × (list_nodes c s.hub ≡ ok nodes)
      × (node.id ≡ id)
      × Choice engine preferred s nodes (some node)
  Placement (inr e) =
      ((x : Error) × (list_nodes c s.hub ≡ err x)
        × (e ≡ invalid_request "cannot read execution-node registry"))
      ⊎ ((nodes : List Node) × (list_nodes c s.hub ≡ ok nodes)
          × (e ≡ no_eligible_node engine preferred)
          × Passed engine preferred s nodes)

  unread :
      {x : Error}
      → list_nodes c s.hub ≡ err x
      → eligible_execution_node c engine preferred s
        ≡ inr (invalid_request "cannot read execution-node registry")
  unfolding eligible_execution_node
  unread h = ground arith

  abbrev placed : Option Node → NodeId ⊎ ProtocolError
  placed none = inr (no_eligible_node engine preferred)
  placed (some node) = inl node.id

  read :
      {nodes : List Node}
      → list_nodes c s.hub ≡ ok nodes
      → eligible_execution_node c engine preferred s
        ≡ placed (Sql.first (eligible engine preferred s) nodes)
  unfolding eligible_execution_node
  read h = ground arith

  placed-Placement :
      (nodes : List Node) (o : Option Node)
      → list_nodes c s.hub ≡ ok nodes
      → Choice engine preferred s nodes o
      → Placement (placed o)
  placed-Placement nodes none good h = inr (nodes, good, refl, h)
  placed-Placement nodes (some node) good h = (node, nodes, good, refl, h)

  -- A run is placed on the first node of the stored registry, in its order, that is connected, did
  -- not opt out of tasks, lists the engine or has a flag for it, and is the preferred one if the
  -- command names one. Where the placement is refused, either no stored node is such a one, or the
  -- registry cannot be read.
  pub eligible_execution_node-Placement : Placement (eligible_execution_node c engine preferred s)
  eligible_execution_node-Placement = elim (Result-cases (list_nodes c s.hub)) [
    | inr (e, bad) ↦ subst Placement (sym (unread bad)) (inl (e, bad, refl))
    | inl (nodes, good) ↦ subst Placement (sym (read good)) (
        placed-Placement nodes (Sql.first (eligible engine preferred s) nodes) good
          (first-Choice engine preferred s nodes))
  ]
