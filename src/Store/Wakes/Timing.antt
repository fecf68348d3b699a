-- ===== src/Store/Wakes/Timing.antt =====
-- When a wake is due: `defer_assistant_wake` and `complete_assistant_wake` against the query of
-- `pending_assistant_wakes`.
use native.Mathlib.Nat.{pow-suc, pow-le-pow_right}
use stackhour.Prelude.{
  ℕ, suc, ◌+◌, ◌-◌, ◌*◌, ◌^◌, ◌≤◌, ◌<◌, min, String, ◌≡◌, refl, ap, ◌∙◌, sym, Bool, true, false,
  some, List, [], ◌∷◌, arith, str_eq, eq_iff, text_le, leb, ltb, ◌&&◌, Bool-cases, inl, inr,
}
use stackhour.Sql
use stackhour.Sql.Laws.{exists-order_by, exists-select}
use stackhour.Sql.{select, order_by, update, first, changed}
use stackhour.Domain.Codec.{Codec, IsLawful, year_10000}
use stackhour.Domain.Ids.{EventId, Time}
use stackhour.Store.Rows.{WakeRow}
use stackhour.Store.Db.{Db}
use stackhour.Store.Wakes.{
  delay_seconds, nanos_per_second, defer_assistant_wake, complete_assistant_wake, due, due_rows,
  open_wake, deferred, take_chars,
}

delay_at : (n m : ℕ) → min (n - 1) 8 ≡ m → delay_seconds n ≡ 5 * 2 ^ m
unfolding delay_seconds
delay_at n m e = ap (λ t. 5 * 2 ^ t) e

pow_le : (n : ℕ) → n < 8 → 2 ^ suc n ≤ 256
pow_le n h = pow-le-pow_right {n = 2} (omega arith) {i = suc n} {j = 8} (omega arith)

doubled : (n : ℕ) → n < 8 → delay_seconds (n + 2) ≡ min (2 * delay_seconds (n + 1)) 1280
doubled n h = omega (
  arith,
  delay_at (n + 2) (suc n) (omega arith),
  delay_at (n + 1) n (omega arith),
  pow-suc 2 n,
  pow_le n h,
)

-- The delay is 5 seconds after the first failed attempt, and each further one doubles it, up to
-- 1280 seconds.
pub delay_seconds_doubles :
    (n : ℕ) → (delay_seconds 1 ≡ 5) × (delay_seconds (n + 2) ≡ min (2 * delay_seconds (n + 1)) 1280)
delay_seconds_doubles n = (
  delay_at 1 0 (omega arith),
  elim (Bool-cases (ltb n 8)) [
    | inl early ↦ doubled n (ground arith)
    | inr late ↦ omega (arith, delay_at (n + 2) 8 (ground arith), delay_at (n + 1) 8 (ground arith))
  ],
)

-- the rows of an event's wakes
abbrev pub wake_of : String → WakeRow → Bool
wake_of k r = str_eq r.event_id k

abbrev due_wake : String → String → String → WakeRow → Bool
due_wake k channel now r = due channel now r && wake_of k r

pub due_rows-exists :
    (k channel now : String) (db : Db)
    → Sql.exists (wake_of k) (due_rows channel now db)
      ≡ Sql.exists (due_wake k channel now) db.assistant_wakes
unfolding due_rows
due_rows-exists k channel now db =
    exists-order_by (λ (r s : WakeRow). leb r.sequence s.sequence) (wake_of k) _
    ∙ exists-select (wake_of k) (due channel now) db.assistant_wakes

module _ (c : Codec) (k channel now error : String) (at : Time) (n : ℕ) where
  abbrev later : WakeRow → WakeRow
  later r = record r {
    attempt_count = n;
    next_attempt_at = c.time_text at;
    last_error = some error;
  }

  too_early :
      (rows : List WakeRow)
      → text_le (c.time_text at) now ≡ false
      → Sql.exists (due_wake k channel now) (update (open_wake k) later rows) ≡ false
  unfolding Sql.exists update
  too_early [] h = refl
  too_early (r ∷ rows) h = ground (arith, too_early rows h)

  in_time :
      (rows : List WakeRow) {r : WakeRow}
      → text_le (c.time_text at) now ≡ true
      → first (open_wake k) rows ≡ some r
      → str_eq r.channel channel ≡ true
      → Sql.exists (due_wake k channel now) (update (open_wake k) later rows) ≡ true
  unfolding Sql.exists update first
  in_time [] h f e = ground arith
  in_time (x ∷ rows) {r} h f e = ground (arith, in_time rows {r = r} h)

never_due :
    (k channel now done : String) (rows : List WakeRow)
    → Sql.exists
        (due_wake k channel now)
        (update (open_wake k) (λ (r : WakeRow). record r { processed_at = some done }) rows)
      ≡ false
unfolding Sql.exists update
never_due k channel now done [] = refl
never_due k channel now done (r ∷ rows) = ground (arith, never_due k channel now done rows)

deferred_wakes :
    (c : Codec) (now : Time) (e : EventId) (error : String) (db : Db) {r : WakeRow}
    → first (open_wake (c.uuid_text e)) db.assistant_wakes ≡ some r
    → (defer_assistant_wake c now e error db).1 ≡ record db {
      assistant_wakes =
          update
            (open_wake (c.uuid_text e))
            (deferred c now (r.attempt_count + 1) error)
            db.assistant_wakes;
    }
unfolding defer_assistant_wake
deferred_wakes c now e error db found = ground arith

module _ (c : Codec) (lawful : IsLawful c) where
  -- A wake whose assessment failed is offered to its channel again just from the end of its delay:
  -- at time `t` the event is among the due wakes if and only if the delay, counted from the
  -- failure with one attempt more, has passed.
  pub defer_assistant_wake-due :
      (now t : Time) (e : EventId) (error : String) (db : Db) {r : WakeRow}
      → let at = now + delay_seconds (r.attempt_count + 1) * nanos_per_second in
        first (open_wake (c.uuid_text e)) db.assistant_wakes ≡ some r
        → at < year_10000
        → t < year_10000
        → Sql.exists
            (wake_of (c.uuid_text e))
            (due_rows r.channel (c.time_text t) (defer_assistant_wake c now e error db).1)
          ≡ leb at t
  defer_assistant_wake-due now t e error db {r} found h k =
      let at = now + delay_seconds (r.attempt_count + 1) * nanos_per_second in
      let same = lawful.time_order at t h k in
      rw (deferred_wakes c now e error db found) (
        due_rows-exists (c.uuid_text e) r.channel (c.time_text t) _ ∙ elim (Bool-cases (leb at t)) [
          | inl past ↦
              in_time c (c.uuid_text e) r.channel (c.time_text t) (take_chars 500 error) at
                (r.attempt_count + 1) db.assistant_wakes (same ∙ past) found
                ((eq_iff r.channel r.channel).1 refl)
              ∙ sym past
          | inr early ↦
              too_early c (c.uuid_text e) r.channel (c.time_text t) (take_chars 500 error) at
                (r.attempt_count + 1) db.assistant_wakes (same ∙ early)
              ∙ sym early
        ])

module _ (c : Codec) where
  -- Once the assessment of an event's wake is completed, no query finds the wake due, whatever the
  -- time and the channel.
  pub complete_assistant_wake-due :
      (now t : Time) (e : EventId) (channel : String) (db : Db)
      → Sql.exists
          (wake_of (c.uuid_text e))
          (due_rows channel (c.time_text t) (complete_assistant_wake c now e db).1)
        ≡ false
  unfolding complete_assistant_wake
  complete_assistant_wake-due now t e channel db =
      due_rows-exists (c.uuid_text e) channel (c.time_text t) _
      ∙ never_due (c.uuid_text e) channel (c.time_text t) (c.time_text now) db.assistant_wakes
