-- ===== src/Node/Supervisor.antt =====
-- The node's connection loop and what it does with a message of the hub: `run_with_engine`,
-- `connect_once`, `receive_loop` and `handle_hub_message`, of crates/stackhour-node/src/lib.rs. What
-- the socket and the shutdown signal do is an argument: the course of each attempt to connect.
pub mod Ramp
use stackhour.Prelude.{
  ℕ, zero, suc, ◌+◌, ◌-◌, ◌^◌, ◌/◌, String, Bool, true, false, Option, none, some, List, [], ◌∷◌,
  min, leb, if◌then◌else◌,
}
use stackhour.Domain.Ids.{EventId, CommandId, NodeId, Time}
use stackhour.Domain.Json.{Value}
use stackhour.Domain.Protocol.{
  ProtocolError, unauthenticated, NodeHello, HubWelcome, wire_protocol_version, NodeWork, HubToNode,
  dispatch_command, approval_decision, cancel_command, event_ack, heartbeat,
}
use stackhour.Node.Outbox.{OutboxState, acknowledge_event}
use stackhour.Node.Cli.State.{CliEngineConfig, Engine}
use stackhour.Node.Cli.Dispatch.{dispatch, cancel}
use stackhour.Node.Backoff.{delay}

pub record NodeConfig : Type 0 where
  pub node_id : NodeId
  pub token : String
  pub software_version : String
  pub capabilities : Value
  pub backoff_base : ℕ
  pub backoff_max : ℕ

-- the hello that opens a connection
abbrev pub hello : NodeConfig → NodeHello
hello config = record {
  node_id = config.node_id;
  token = config.token;
  software_version = config.software_version;
  protocol_version = wire_protocol_version;
  capabilities = config.capabilities;
  resume_after_sequence = none;
}

pub data SessionEnd : Type 0 where
  shutdown : SessionEnd
  rejected : ProtocolError → SessionEnd
  disconnected : (established : Bool) → SessionEnd

-- How an attempt goes: shutdown comes first while dialing; the dial fails; the hello is not sent;
-- shutdown comes first while waiting; the first frame is no welcome; or it is one, and then `stopped`
-- says whether shutdown or the end of the receive loop ends the session.
pub data Course : Type 0 where
  stopped_dialing : Course
  not_dialed : Course
  hello_failed : Course
  stopped_waiting : Course
  no_welcome : Course
  welcomed : HubWelcome → (stopped : Bool) → Course

abbrev pub or_unauthenticated : Option ProtocolError → ProtocolError
or_unauthenticated none = unauthenticated
or_unauthenticated (some e) = e

abbrev pub session : (stopped : Bool) → SessionEnd
session true = shutdown
session false = disconnected true

unfoldable pub connect_once : Course → SessionEnd
connect_once stopped_dialing = shutdown
connect_once not_dialed = disconnected false
connect_once hello_failed = disconnected false
connect_once stopped_waiting = shutdown
connect_once no_welcome = disconnected false
connect_once (welcomed welcome stopped) =
    if welcome.accepted then session stopped else rejected (or_unauthenticated welcome.error)

-- what the loop comes to: it returns, or the courses given are over and it still runs
pub data Returned : Type 0 where
  stopped_cleanly : Returned
  refused : ProtocolError → Returned
  running : (attempt : ℕ) → Returned

-- `saturating_add(1)`, of a u32
abbrev pub next_attempt : ℕ → ℕ
next_attempt attempt = min (attempt + 1) (2 ^ 32 - 1)

abbrev pub restarted : (established : Bool) → ℕ → ℕ
restarted true attempt = 0
restarted false attempt = attempt

-- `select!` between shutdown and the delay; the delay is put down where it is waited for
abbrev pub after_delay : (stops : Bool) (wait : ℕ) → List ℕ × Returned → List ℕ × Returned
after_delay true wait rest = (wait ∷ [], stopped_cleanly)
after_delay false wait (waits, r) = (wait ∷ waits, r)

abbrev pub go_on :
    (wait : ℕ → ℕ)
    → SessionEnd
    → (stops : Bool) (attempt : ℕ) → (ℕ → List ℕ × Returned)
    → List ℕ × Returned
go_on wait shutdown stops attempt again = ([], stopped_cleanly)
go_on wait (rejected e) stops attempt again = ([], refused e)
go_on wait (disconnected established) stops attempt again =
    let attempt' = next_attempt (restarted established attempt) in
    after_delay stops (wait attempt') (again attempt')

-- The loop, over the courses of its attempts, each with whether shutdown comes in the delay after
-- it: the delays that it began to wait, and what it came to. `wait` is `backoff::delay`.
unfoldable pub run_loop : (wait : ℕ → ℕ) → List (Course × Bool) → (attempt : ℕ) → List ℕ × Returned
unfolding connect_once
run_loop wait [] attempt = ([], running attempt)
run_loop wait ((course, stops) ∷ rest) attempt =
    go_on wait (connect_once course) stops attempt (run_loop wait rest)

unfoldable pub run_with_engine :
    NodeConfig → (jitter : ℕ → ℕ) → List (Course × Bool) → List ℕ × Returned
unfolding run_loop
run_with_engine config jitter courses =
    run_loop (λ attempt. delay jitter attempt config.backoff_base config.backoff_max) courses 0

abbrev nanos_per_second : ℕ
nanos_per_second = 10 ^ 9

-- `expires_at.timestamp()`, of a time since the year 0 as `now` is
abbrev pub expired : (now : Time) → Option Time → Bool
expired now none = false
expired now (some expires_at) = leb (expires_at / nanos_per_second) (now / nanos_per_second)

-- A command starts its process if `spawns` says so.
unfoldable pub handle_hub_message :
    CliEngineConfig → (spawns : Bool) (now : Time) → HubToNode → Engine → Engine
unfolding dispatch cancel acknowledge_event
handle_hub_message config spawns now (dispatch_command command_id expires_at work) e =
    if expired now expires_at then e else dispatch config spawns command_id work e
handle_hub_message config spawns now (cancel_command command_id) e = cancel command_id e
handle_hub_message config spawns now (event_ack event_id) e = record e {
  outbox = acknowledge_event event_id e.outbox;
}
handle_hub_message config spawns now (approval_decision _ _ _) e = e
handle_hub_message config spawns now heartbeat e = e
