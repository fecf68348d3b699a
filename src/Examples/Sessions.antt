-- ===== src/Examples/Sessions.antt =====
-- A client's session on a concrete hub.
use stackhour.Prelude.{◌≡◌, refl, none, some, List, [], ◌∷◌, pos, arith}
use stackhour.Result.{ok}
use stackhour.Sql
use stackhour.Domain.Event.{Event}
use stackhour.Domain.Protocol.{subscribe_ack, event_delivery}
use stackhour.Store.Rows.{row_to_event}
use stackhour.Store.Rows.Roundtrip.{stamped}
use stackhour.Store.Append.{no_entity}
use stackhour.Hub.State.{HubState}
use stackhour.Hub.Broadcast.{Readable}
use stackhour.Hub.ClientLink.{Client, open_client}
use stackhour.Hub.ClientLink.Session.{
  Session, Turn, turns, commanded, reported, received, lagged, beat,
}
use stackhour.Hub.ClientLink.Exact.{Exact}
use stackhour.Hub.ClientLink.Turns.{open_client-Exact, turns-Exact}
use stackhour.Examples.World.{codec, codec-IsLawful, prompt, completion}
use stackhour.Examples.Commands.{world-IsConsistent}
use stackhour.Examples.Hub.{hub}

abbrev written : List Event
written = stamped 1 7 (some 8) prompt 3 ∷ []

written_lem : Sql.collect (row_to_event codec) hub.hub.events ≡ ok written
unfolding Sql.collect stackhour.Store.Rows.event_row row_to_event stackhour.Examples.Unary.unary
    stackhour.Examples.Unary.count_strokes stackhour.Examples.Unary.strokes
    stackhour.Domain.EventKind.from_dotted stackhour.Domain.EventKind.as_str
written_lem = refl

prompt-Readable : Readable codec prompt 9
unfolding stackhour.Examples.Unary.unary
prompt-Readable = (refl, omega arith, omega arith)

completion-Readable : Readable codec completion 9
unfolding stackhour.Examples.Unary.unary
completion-Readable = (refl, omega arith, omega arith)

open_client-Exact_example :
    (client : Client) × (open_client codec none (some (pos 1)) hub ≡ some client)
    × Exact codec 1 (record { client = client; next = 0; state = hub })
unfolding stackhour.Hub.State.accepts_client
open_client-Exact_example =
    open_client-Exact codec none (some (pos 1)) 1 0 hub written written refl refl (omega arith)
      world-IsConsistent written_lem refl (omega arith)

-- a client that was sent the whole log
abbrev session : Session
session = record {
  client = record {
    last_delivered = 1;
    sent = subscribe_ack none 1 ∷ event_delivery (stamped 1 7 (some 8) prompt 3) ∷ [];
  };
  next = 0;
  state = hub;
}

session-Exact : Exact codec 0 session
session-Exact = record {
  consistent = world-IsConsistent;
  earlier = [];
  rest = [];
  log = written_lem;
  cursor = refl;
  last = refl;
  old = written;
  channel = refl;
  position = omega arith;
}

-- two events arrive, the channel drops one, and another follows
abbrev talk : List Turn
talk =
    commanded 9 60 61 prompt no_entity none
    ∷ received
    ∷ reported 9 62 completion
    ∷ lagged 1
    ∷ commanded 9 63 64 prompt no_entity none
    ∷ beat
    ∷ received
    ∷ []

turns-Exact_example : (s' : Session) × (turns codec talk session ≡ some s') × Exact codec 0 s'
turns-Exact_example =
    turns-Exact codec 0 codec-IsLawful talk session
      (prompt-Readable, (tt, (completion-Readable, (tt, (prompt-Readable, (tt, (tt, tt)))))))
      session-Exact
