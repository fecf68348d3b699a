-- ===== src/Examples/Agent.antt =====
-- The agent's queue on concrete files.
use stackhour.Prelude.{
  ℕ, ◌≡◌, refl, ◌≤◌, ◌<◌, ◌⊎◌, inl, inr, some, List, [], ◌∷◌, ◌++◌, suc, length, take,
}
use stackhour.Domain.Json.{Value, null}
use stackhour.Agent.Queue.{read_queue, take_send_batch}
use stackhour.Agent.Queue.Batch.{array_size, take_send_batch-bounds}
use stackhour.Agent.Queue.Contents.{IsClean}
use stackhour.Agent.Tick.{tick, Disk, Surroundings, done, failed, stored_unconfirmed, unstored}
use stackhour.Agent.Tick.Kept.{Kept, tick-Kept}
use stackhour.Examples.World.{codec}

abbrev rows : List Value
rows = null ∷ null ∷ null ∷ []

take_send_batch-bounds_example :
    let n = take_send_batch codec rows 11 in
    (n ≤ length rows)
    × ((rows ≡ []) ⊎ (1 ≤ n))
    × ((n ≤ 1) ⊎ (array_size codec (take n rows) ≤ 11))
    × ((n ≡ length rows) ⊎ (11 < array_size codec (take (suc n) rows)))
take_send_batch-bounds_example = take_send_batch-bounds codec rows 11

null-IsClean : IsClean codec null
unfolding stackhour.Agent.Queue.read_text stackhour.Examples.Unary.unary
null-IsClean = refl

null_line : read_queue codec (some "null\n") ≡ null ∷ []
unfolding read_queue stackhour.Examples.Unary.unary
null_line = refl

-- the server stores the rows and its answer is late
abbrev late : Surroundings ℕ
late = record { appended = done; state_saved = done; answer = stored_unconfirmed; rewritten = done }

abbrev disk : Disk ℕ
disk = record { queue = some "null\n"; state = 0 }

tick-Kept_example :
    let (stored, after) = tick codec (null ∷ []) 1 late disk in
    Kept codec stored_unconfirmed done
      (read_queue codec (some "null\n") ++ null ∷ [])
      (stored, after.queue)
unfolding read_queue stackhour.Examples.Unary.unary
tick-Kept_example =
    tick-Kept codec (null ∷ []) 1 late disk (inr ("null", refl)) (null-IsClean, tt)
      (null-IsClean, tt) (inl refl) tt

-- neither the append nor the post goes through: the fresh row is not kept, and the watchers' state
-- is the new one
lost_row :
    tick codec
      (null ∷ [])
      1
      (record late { appended = failed (some "null\n"); answer = unstored })
      disk
    ≡ ([], record disk { state = 1 })
unfolding tick read_queue stackhour.Examples.Unary.unary
lost_row = refl
