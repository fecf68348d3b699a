-- ===== src/Domain/EventKind.antt =====
-- `EventKind` of crates/stackhour-domain/src/event.rs: the vocabulary, `ALL`, `as_str`, `from_dotted`.
use stackhour.Prelude.{
  String, ◌≡◌, refl, Option, none, some, List, [], ◌∷◌, str_eq, if◌then◌else◌, eq_iff, arith,
}

pub data EventKind : Type 0 where
  task_created : EventKind
  run_started : EventKind
  run_interrupted : EventKind
  run_completed : EventKind
  run_failed : EventKind
  message_user : EventKind
  message_assistant_delta : EventKind
  message_assistant_completed : EventKind
  approval_requested : EventKind
  approval_resolved : EventKind
  node_connected : EventKind
  node_disconnected : EventKind

-- Every kind, in declaration order.
abbrev pub all : List EventKind
all =
    task_created ∷ run_started ∷ run_interrupted ∷ run_completed ∷ run_failed ∷ message_user
    ∷ message_assistant_delta ∷ message_assistant_completed ∷ approval_requested ∷ approval_resolved
    ∷ node_connected ∷ node_disconnected ∷ []

unfoldable pub as_str : EventKind → String
as_str task_created = "task.created"
as_str run_started = "run.started"
as_str run_interrupted = "run.interrupted"
as_str run_completed = "run.completed"
as_str run_failed = "run.failed"
as_str message_user = "message.user"
as_str message_assistant_delta = "message.assistant.delta"
as_str message_assistant_completed = "message.assistant.completed"
as_str approval_requested = "approval.requested"
as_str approval_resolved = "approval.resolved"
as_str node_connected = "node.connected"
as_str node_disconnected = "node.disconnected"

-- `into_iter().find(|k| k.as_str() == s)`
find_dotted : String → List EventKind → Option EventKind
find_dotted s [] = none
find_dotted s (k ∷ ks) = if str_eq (as_str k) s then some k else find_dotted s ks

unfoldable pub from_dotted : String → Option EventKind
unfolding find_dotted as_str
from_dotted s = find_dotted s all

pub from_dotted-as_str : (k : EventKind) → from_dotted (as_str k) ≡ some k
unfolding from_dotted
from_dotted-as_str task_created = refl
from_dotted-as_str run_started = refl
from_dotted-as_str run_interrupted = refl
from_dotted-as_str run_completed = refl
from_dotted-as_str run_failed = refl
from_dotted-as_str message_user = refl
from_dotted-as_str message_assistant_delta = refl
from_dotted-as_str message_assistant_completed = refl
from_dotted-as_str approval_requested = refl
from_dotted-as_str approval_resolved = refl
from_dotted-as_str node_connected = refl
from_dotted-as_str node_disconnected = refl

find_dotted-eq :
    (s : String) (ks : List EventKind) {k : EventKind} → find_dotted s ks ≡ some k → s ≡ as_str k
unfolding find_dotted
find_dotted-eq s [] h = ground arith
find_dotted-eq s (j ∷ ks) {k} h = ground (arith, eq_iff (as_str j) s, find_dotted-eq s ks {k = k})

pub as_str-from_dotted : (s : String) {k : EventKind} → from_dotted s ≡ some k → s ≡ as_str k
unfolding from_dotted
as_str-from_dotted s h = find_dotted-eq s all h
