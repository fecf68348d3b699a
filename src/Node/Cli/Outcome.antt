-- ===== src/Node/Cli/Outcome.antt =====
-- What a prompt comes to: one outcome, and no more.
use stackhour.Prelude.{
  ℕ, ◌+◌, ℤ, String, ◌≡◌, ap, ◌∙◌, Bool, true, false, List, [], ◌∷◌, if◌then◌else◌, arith,
}
use stackhour.Domain.Ids.{RunId, CommandId}
use stackhour.Node.Cli.State.{Engine, has, remove}
use stackhour.Node.Cli.Dispatch.{dispatch, cancel}
use stackhour.Node.Cli.Once.{Started, started-cancel, started-ran, seen-dispatch}
use stackhour.Node.Cli.Machine.{
  Operation, dispatched, cancelled, exited, ran, take_task, run_found, operations,
}
use stackhour.Node.Cli.Due.{asks, due, due-ran, due-cancel, due-dispatch}

-- the prompts of a run that come under a command id not seen before
unfoldable pub prompts : RunId → List Operation → (seen : List CommandId) → ℕ
unfolding has
prompts r [] seen = 0
prompts r (dispatched config spawns k work ∷ os) seen = elim (has k seen) [
  | true ↦ prompts r os seen
  | false ↦ asks r work + prompts r os (k ∷ seen)
]
prompts r (cancelled k ∷ os) seen = prompts r os seen
prompts r (exited job ∷ os) seen = prompts r os seen
prompts r (ran fresh index result ∷ os) seen = prompts r os seen

both :
    (b : Bool) (n n' a : ℕ) (later : List CommandId → ℕ) (k : CommandId)
    (seen seen' : List CommandId)
    → n' ≡ n + (if b then 0 else a)
    → seen' ≡ (if b then seen else k ∷ seen)
    → n' + later seen' ≡ n + (elim b [ true ↦ later seen | false ↦ a + later (k ∷ seen) ])
both true n n' a later k seen seen' h same =
    ap (λ (s : List CommandId). n' + later s) same ∙ omega (arith, h)
both false n n' a later k seen seen' h same =
    ap (λ (s : List CommandId). n' + later s) same ∙ omega (arith, h)

module _ (number : ℤ → String) where
  -- At every moment, the outcomes of a run that the node has emitted and the outcomes that its tasks
  -- will still emit are as many as its prompts: each prompt of the run that came under a new command
  -- id, whether it could start or not, and however its process ended or was interrupted. No event is
  -- acknowledged in between.
  pub operations-due :
      (r : RunId) (os : List Operation) (e : Engine)
      → due r (operations number os e) ≡ due r e + prompts r os e.state.seen
  unfolding operations prompts
  operations-due r [] e = omega arith
  operations-due r (dispatched config spawns k work ∷ os) e =
      let e' = dispatch config spawns k work e in
      let step = due-dispatch config spawns r k work e in
      let seen = seen-dispatch config spawns k work e in
      operations-due r os e'
      ∙ both (has k e.state.seen) (due r e) (due r e') (asks r work) (prompts r os) k e.state.seen
          e'.state.seen step seen
  operations-due r (cancelled k ∷ os) e =
      operations-due r os (cancel k e)
      ∙ ap (λ (n : ℕ). n + prompts r os (cancel k e).state.seen) (due-cancel r k e)
      ∙ ap (λ (s : Started). due r e + prompts r os s.1) (started-cancel k e)
  operations-due r (exited job ∷ os) e = operations-due r os (record e { live = remove job e.live })
  operations-due r (ran f i result ∷ os) e =
      let e' = run_found number f result (take_task i e.tasks) e in
      operations-due r os e'
      ∙ ap (λ (n : ℕ). n + prompts r os e'.state.seen) (due-ran number r f i result e)
      ∙ ap (λ (s : Started). due r e + prompts r os s.1)
          (started-ran number f result (take_task i e.tasks) e)
