-- ===== src/Agent/Tick/Kept.antt =====
-- Where the rows of a tick are after it.
use mathlib.Core.List.{append-nil}
use stackhour.Prelude.{
  ℕ, zero, suc, ◌≤◌, ◌<◌, String, ◌≡◌, ◌≢◌, refl, sym, ◌⊎◌, inl, inr, Option, List, [], ◌∷◌, ◌++◌,
  All, All-append, take, drop, arith,
}
use stackhour.Domain.Codec.{Codec}
use stackhour.Domain.Json.{Value}
use stackhour.Agent.Queue.{read_queue, save_queue, contents, max_send_bytes}
use stackhour.Agent.Queue.Batch.{take_send_batch-bounds}
use stackhour.Agent.Queue.Contents.{IsClean, IsWhole, append_queue-read, save_queue-read}
use stackhour.Agent.Tick.{
  Written, done, failed, Answer, confirmed, stored_unconfirmed, unstored, Disk, Surroundings, batch,
  persist, flush, tick,
}

-- a write that is atomic leaves the file as it was or as it was to be
abbrev pub IsAtomic : {F : Type 0} → Written F → (before after : F) → Type 0
IsAtomic done before after = Unit
IsAtomic (failed left) before after = (left ≡ before) ⊎ (left ≡ after)

module _ (c : Codec) where
  -- The server stored the first `stored` of the pending rows, and the queue reads as those behind the
  -- first `gone`; none is gone that was not stored, and where the server confirmed and the rewrite
  -- was done, those that were stored are gone, at least one if there was any.
  pub record Kept (answer : Answer) (rewritten : Written (Option String)) (pending : List Value)
      (result : List Value × Option String) : Type 0 where
    pub stored : ℕ
    pub gone : ℕ
    pub on_server : result.0 ≡ take stored pending
    pub in_queue : read_queue c result.1 ≡ drop gone pending
    pub none_lost : gone ≤ stored
    pub once : answer ≡ confirmed → rewritten ≡ done → gone ≡ stored
    pub progress : answer ≡ confirmed → pending ≢ [] → 0 < stored
    pub whole : IsWhole c (contents result.1)

  All-drop : (n : ℕ) (xs : List Value) → All (IsClean c) xs → All (IsClean c) (drop n xs)
  All-drop zero xs h = h
  All-drop (suc n) [] h = tt
  All-drop (suc n) (x ∷ xs) h = All-drop n xs h.1

  -- a file that holds the pending rows
  abbrev Holds : List Value → Option String → Type 0
  Holds pending file = (read_queue c file ≡ pending) × IsWhole c (contents file)

  batch-pos : (row : Value) (rows : List Value) → 0 < batch c (row ∷ rows)
  batch-pos row rows = elim (take_send_batch-bounds c (row ∷ rows) max_send_bytes).1 [
    | inl nothing ↦ absurd (cc nothing)
    | inr enough ↦ omega arith
  ]

  -- the server confirmed, and the file is the rewritten one
  rewrote :
      (row : Value) (rows : List Value) (rewritten : Written (Option String))
      {after : Option String} (file : Option String)
      → after ≡ save_queue c (drop (batch c (row ∷ rows)) (row ∷ rows)) file
      → All (IsClean c) (row ∷ rows)
      → Kept confirmed rewritten (row ∷ rows) (take (batch c (row ∷ rows)) (row ∷ rows), after)
  rewrote row rows rewritten file e clean =
      let n = batch c (row ∷ rows) in
      let saved = save_queue-read c (drop n (row ∷ rows)) file (All-drop n (row ∷ rows) clean) in
      record {
        stored = n;
        gone = n;
        on_server = refl;
        in_queue = rw e saved.0;
        none_lost = omega arith;
        once = λ _ _. refl;
        progress = λ _ _. batch-pos row rows;
        whole = rw e saved.1;
      }

  not_nil : (queued : List Value) (row : Value) (rows : List Value) → queued ++ row ∷ rows ≢ []
  not_nil [] row rows e = absurd (cc e)
  not_nil (q ∷ queued) row rows e = absurd (cc e)

  persist-Holds :
      {answer : Answer} {rewritten : Written (Option String)} (appended : Written (Option String))
      (fresh : List Value) (file : Option String)
      → IsWhole c (contents file)
      → All (IsClean c) fresh
      → (appended ≡ done) ⊎ (answer ≡ confirmed) × (rewritten ≡ done)
      → Holds (read_queue c file ++ fresh) (persist c appended fresh file)
        ⊎ (answer ≡ confirmed) × (rewritten ≡ done) × (read_queue c file ++ fresh ≢ [])
  persist-Holds appended [] file closed clean either =
      inl (sym (append-nil (read_queue c file)), closed)
  persist-Holds done (row ∷ rows) file closed clean either =
      inl (append_queue-read c (row ∷ rows) file closed clean)
  persist-Holds (failed left) (row ∷ rows) file closed clean (inl e) = absurd (cc e)
  persist-Holds (failed left) (row ∷ rows) file closed clean (inr (a, r)) =
      inr (a, r, not_nil (read_queue c file) row rows)

  flush-Kept :
      (answer : Answer) (rewritten : Written (Option String)) (pending : List Value)
      (file : Option String)
      → Holds pending file ⊎ (answer ≡ confirmed) × (rewritten ≡ done) × (pending ≢ [])
      → IsAtomic rewritten file (save_queue c (drop (batch c pending) pending) file)
      → All (IsClean c) pending
      → Kept answer rewritten pending (flush c answer rewritten pending file)
  flush-Kept answer rewritten [] file (inr (_, _, some_pending)) atomic clean =
      absurd (some_pending refl)
  flush-Kept answer rewritten [] file (inl (reads, closed)) atomic clean = record {
    stored = 0;
    gone = 0;
    on_server = refl;
    in_queue = reads;
    none_lost = omega arith;
    once = λ _ _. refl;
    progress = λ _ h. absurd (h refl);
    whole = closed;
  }
  flush-Kept unstored rewritten (row ∷ rows) file (inr (e, _, _)) atomic clean = absurd (cc e)
  flush-Kept stored_unconfirmed rewritten (row ∷ rows) file (inr (e, _, _)) atomic clean =
      absurd (cc e)
  flush-Kept unstored rewritten (row ∷ rows) file (inl (reads, closed)) atomic clean = record {
    stored = 0;
    gone = 0;
    on_server = refl;
    in_queue = reads;
    none_lost = omega arith;
    once = λ _ _. refl;
    progress = λ e _. absurd (cc e);
    whole = closed;
  }
  flush-Kept stored_unconfirmed rewritten (row ∷ rows) file (inl (reads, closed)) atomic clean =
      record {
        stored = batch c (row ∷ rows);
        gone = 0;
        on_server = refl;
        in_queue = reads;
        none_lost = omega arith;
        once = λ e _. absurd (cc e);
        progress = λ e _. absurd (cc e);
        whole = closed;
      }
  flush-Kept confirmed done (row ∷ rows) file held atomic clean =
      rewrote row rows done file refl clean
  flush-Kept confirmed (failed left) (row ∷ rows) file held (inr saved) clean =
      rewrote row rows (failed left) file saved clean
  flush-Kept confirmed (failed left) (row ∷ rows) file (inr (_, e, _)) (inl kept) clean =
      absurd (cc e)
  flush-Kept confirmed (failed left) (row ∷ rows) file (inl (reads, closed)) (inl kept) clean =
      record {
        stored = batch c (row ∷ rows);
        gone = 0;
        on_server = refl;
        in_queue = rw kept reads;
        none_lost = omega arith;
        once = λ _ e. absurd (cc e);
        progress = λ _ _. batch-pos row rows;
        whole = rw kept closed;
      }

  -- After a tick every row that was queued, and then every fresh one, is with the server or in the
  -- queue, in order, also where the post ends with an error although the server stored the rows, and
  -- where the rewrite fails. Where the server confirmed, it stored at least one row if any was
  -- pending, and where the rewrite was done too, just the stored rows are gone from the queue. The
  -- file is whole. The rows' texts are one line each and read back, no write was torn off the file
  -- before, the rewrite is atomic, and the append was done, or else the server confirmed and the
  -- rewrite was done.
  pub tick-Kept :
      {S : Type 0} (fresh : List Value) (state : S) (env : Surroundings S) (disk : Disk S)
      → IsWhole c (contents disk.queue)
      → All (IsClean c) (read_queue c disk.queue)
      → All (IsClean c) fresh
      → (env.appended ≡ done) ⊎ (env.answer ≡ confirmed) × (env.rewritten ≡ done)
      → (let pending = read_queue c disk.queue ++ fresh in
          let file = persist c env.appended fresh disk.queue in
          IsAtomic env.rewritten file (save_queue c (drop (batch c pending) pending) file))
      → let (stored, after) = tick c fresh state env disk in
        Kept env.answer env.rewritten (read_queue c disk.queue ++ fresh) (stored, after.queue)
  unfolding tick
  tick-Kept fresh state env disk closed queued clean either atomic =
      flush-Kept env.answer env.rewritten (read_queue c disk.queue ++ fresh)
        (persist c env.appended fresh disk.queue)
        (persist-Holds env.appended fresh disk.queue closed clean either) atomic
        (All-append (IsClean c) (read_queue c disk.queue) fresh queued clean)
