-- ===== src/Agent/Tick.antt =====
-- The queue's part of the agent's `tick`, of crates/stackhour-agent/src/lib.rs: the append of the
-- fresh rows, the write of the watchers' state, the post and the rewrite. What the file system and
-- the server answer is an argument.
pub mod Kept
use stackhour.Prelude.{ℕ, String, Option, List, [], ◌∷◌, ◌++◌, take, drop}
use stackhour.Domain.Codec.{Codec}
use stackhour.Domain.Json.{Value}
use stackhour.Agent.Queue.{read_queue, append_queue, save_queue, take_send_batch, max_send_bytes}

-- How a write ends: done, or with an error, after which the file is what it left.
pub data Written (F : Type 0) : Type 0 where
  done : Written F
  failed : (left : F) → Written F

abbrev pub after_write : {F : Type 0} → Written F → F → F
after_write done whole = whole
after_write (failed left) whole = left

-- How a post ends. A server may have stored the rows of a post that ends with an error: its answer
-- came late, or was not JSON.
pub data Answer : Type 0 where
  confirmed : Answer
  stored_unconfirmed : Answer
  unstored : Answer

-- the files of the data directory; `state` is the watchers' offsets and health
pub record Disk (S : Type 0) : Type 0 where
  pub queue : Option String
  pub state : S

-- what one tick meets
pub record Surroundings (S : Type 0) : Type 0 where
  pub appended : Written (Option String)
  pub state_saved : Written S
  pub answer : Answer
  pub rewritten : Written (Option String)

module _ (c : Codec) where
  abbrev pub batch : List Value → ℕ
  batch pending = take_send_batch c pending max_send_bytes

  -- `if !fresh.is_empty()`; an error is printed, and the tick goes on
  abbrev pub persist :
      Written (Option String) → (fresh : List Value) → Option String → Option String
  persist appended [] file = file
  persist appended (row ∷ rows) file = after_write appended (append_queue c (row ∷ rows) file)

  -- the rows that the server stored, and the file after the post
  abbrev pub flush :
      Answer
      → Written (Option String)
      → (pending : List Value) → Option String
      → List Value × Option String
  flush answer rewritten [] file = ([], file)
  flush confirmed rewritten (row ∷ rows) file =
      let n = batch (row ∷ rows) in
      (take n (row ∷ rows), after_write rewritten (save_queue c (drop n (row ∷ rows)) file))
  flush stored_unconfirmed rewritten (row ∷ rows) file =
      (take (batch (row ∷ rows)) (row ∷ rows), file)
  flush unstored rewritten (row ∷ rows) file = ([], file)

  -- `fresh` and `state` are what the watchers came to
  unfoldable pub tick :
      {S : Type 0}
      → (fresh : List Value) → (state : S) → Surroundings S
      → Disk S
      → List Value × Disk S
  tick fresh state env disk =
      let queued = read_queue c disk.queue in
      let file = persist env.appended fresh disk.queue in
      let (stored, after) = flush env.answer env.rewritten (queued ++ fresh) file in
      (stored, record { queue = after; state = after_write env.state_saved state })
