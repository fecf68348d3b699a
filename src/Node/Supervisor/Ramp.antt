-- ===== src/Node/Supervisor/Ramp.antt =====
-- When the node gives up, and how long it waits before it tries again.
use stackhour.Prelude.{
  ℕ, zero, suc, ◌+◌, ◌≡◌, refl, ap, ◌∙◌, Bool, true, false, List, [], ◌∷◌, ◌++◌, length, arith, ◌⊎◌,
  inl, inr, ◌<◌, ◌^◌, map, All,
}
use stackhour.Domain.Protocol.{ProtocolError}
use stackhour.Node.Supervisor.{
  Course, shutdown, rejected, disconnected, connect_once, Returned, stopped_cleanly, refused,
  next_attempt, restarted, run_loop,
}

abbrev pub Attempt : Type 0
Attempt = Course × Bool

-- the link drops, after a session if `established`, and shutdown does not come in the delay
abbrev pub Drops : (established : Bool) → Attempt → Type 0
Drops established (course, stops) =
    (connect_once course ≡ disconnected established) × (stops ≡ false)

-- `n` numbers behind `attempt`
abbrev pub up_from : (attempt n : ℕ) → List ℕ
up_from attempt zero = []
up_from attempt (suc n) = suc attempt ∷ up_from (suc attempt) n

suc_attempt : (attempt : ℕ) → attempt + 1 < 2 ^ 32 → next_attempt attempt ≡ suc attempt
suc_attempt attempt h = omega arith

plus_none : (n : ℕ) → n ≡ n + 0
plus_none n = omega arith

plus_suc : (n m : ℕ) → suc n + m ≡ n + suc m
plus_suc n m = omega arith

plus_suc_zero : (m : ℕ) → 1 + m ≡ suc m
plus_suc_zero m = omega arith

abbrev with_waits : List ℕ → List ℕ × Returned → List ℕ × Returned
with_waits ws (waits, r) = (ws ++ waits, r)

module _ (wait : ℕ → ℕ) where
  drop-run_loop :
      (established : Bool) (c : Attempt) (rest : List Attempt) (attempt : ℕ)
      → Drops established c
      → restarted established attempt + 1 < 2 ^ 32
      → run_loop wait (c ∷ rest) attempt ≡ (
          let next = suc (restarted established attempt) in
          let (waits, r) = run_loop wait rest next in (wait next ∷ waits, r))
  unfolding run_loop
  drop-run_loop established (course, stops) rest attempt (drops, goes_on) small =
      rw (drops, goes_on, suc_attempt (restarted established attempt) small) refl

  failures-run_loop :
      (cs rest : List Attempt) (attempt : ℕ)
      → All (Drops false) cs
      → attempt + length cs + 1 < 2 ^ 32
      → run_loop wait (cs ++ rest) attempt ≡ (
          let (waits, r) = run_loop wait rest (attempt + length cs) in
          (map wait (up_from attempt (length cs)) ++ waits, r))
  failures-run_loop [] rest attempt h small =
      ap (λ (n : ℕ). run_loop wait rest n) (plus_none attempt)
  failures-run_loop (c ∷ cs) rest attempt h small =
      drop-run_loop false c (cs ++ rest) attempt h.0 (omega arith)
      ∙ ap (λ (x : List ℕ × Returned). (wait (suc attempt) ∷ x.0, x.1))
          (failures-run_loop cs rest (suc attempt) h.1 (omega arith))
      ∙ ap
          (λ (n : ℕ).
            with_waits (wait (suc attempt) ∷ map wait (up_from (suc attempt) (length cs)))
              (run_loop wait rest n))
          (plus_suc attempt (length cs))

  -- When a session drops, the delays begin again at the first step, and each failed dial after it
  -- waits one step more, whatever was counted before.
  pub run_loop-ramp :
      (c : Attempt) (cs rest : List Attempt) (attempt : ℕ)
      → Drops true c
      → All (Drops false) cs
      → length cs + 2 < 2 ^ 32
      → run_loop wait (c ∷ (cs ++ rest)) attempt ≡ (
          let n = suc (length cs) in
          let (waits, r) = run_loop wait rest n in (map wait (up_from 0 n) ++ waits, r))
  run_loop-ramp c cs rest attempt dropped failed small =
      drop-run_loop true c (cs ++ rest) attempt dropped (omega arith)
      ∙ ap (λ (x : List ℕ × Returned). (wait 1 ∷ x.0, x.1))
          (failures-run_loop cs rest 1 failed (omega arith))
      ∙ ap
          (λ (n : ℕ). with_waits (wait 1 ∷ map wait (up_from 1 (length cs))) (run_loop wait rest n))
          (plus_suc_zero (length cs))

  -- what an attempt comes to, where it ends the loop
  abbrev pub Decides : Attempt → Returned → Type 0
  Decides (course, stops) r =
      ((connect_once course ≡ shutdown) × (r ≡ stopped_cleanly))
      ⊎ (((e : ProtocolError) × (connect_once course ≡ rejected e) × (r ≡ refused e))
          ⊎ (((b : Bool) × (connect_once course ≡ disconnected b))
              × (stops ≡ true)
              × (r ≡ stopped_cleanly)))

  abbrev pub Dropped : Attempt → Type 0
  Dropped c = (b : Bool) × Drops b c

  decided :
      (c : Attempt) (rest : List Attempt) (attempt : ℕ) (r : Returned)
      → Decides c r
      → (run_loop wait (c ∷ rest) attempt).1 ≡ r
  unfolding run_loop
  decided (course, stops) rest attempt r (inl (is_shutdown, same)) = rw (is_shutdown, same) refl
  decided (course, stops) rest attempt r (inr (inl (e, is_rejected, same))) =
      rw (is_rejected, same) refl
  decided (course, stops) rest attempt r (inr (inr ((b, drops), stopped, same))) =
      rw (drops, stopped, same) refl

  -- The loop ends, and it ends at the first attempt that shuts down, is rejected, or is followed by
  -- shutdown in its delay: cleanly, or with the error of the rejection. Any number of drops before it
  -- are each retried.
  pub run_loop-returns :
      (drops : List Attempt) (c : Attempt) (rest : List Attempt) (attempt : ℕ) (r : Returned)
      → All Dropped drops
      → Decides c r
      → (run_loop wait (drops ++ c ∷ rest) attempt).1 ≡ r
  unfolding run_loop
  run_loop-returns [] c rest attempt r h d = decided c rest attempt r d
  run_loop-returns ((course, stops) ∷ cs) c rest attempt r ((b, (drops, goes_on)), h) d =
      rw (drops, goes_on) (run_loop-returns cs c rest (next_attempt (restarted b attempt)) r h d)
