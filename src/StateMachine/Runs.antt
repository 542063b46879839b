-- ===== src/StateMachine/Runs.antt =====
-- What holds of a machine of src/side_effects_lab/state_machine.py after any calls of `transition`, with the exceptions
-- of the calls caught by the caller.
use side_effects_lab.Prelude.{String, Option, List, [], ◌∷◌}
use side_effects_lab.StateMachine.Types.{OperationState, TransitionEvidence, OperationIdentity}
use side_effects_lab.StateMachine.Machine.{OperationStateMachine, transition}

-- The arguments of one call.
pub record Call : Type 0 where
  pub target : OperationState
  pub evidence : TransitionEvidence
  pub identity : OperationIdentity
  pub attempt_id : Option String

abbrev pub call : OperationStateMachine → Call → OperationStateMachine
call m c = (transition c.target c.evidence c.identity c.attempt_id m).1

unfoldable pub run : List Call → OperationStateMachine → OperationStateMachine
run [] m = m
run (c ∷ cs) m = run cs (call m c)

-- An induction rule: what one call keeps, a run keeps.
pub run_keeps {ℓ} :
    (P : OperationStateMachine → Type ℓ)
    → ((m : OperationStateMachine) (c : Call) → P m → P (call m c))
    → (cs : List Call) (m : OperationStateMachine) → P m
    → P (run cs m)
unfolding run
run_keeps P keep [] m h = h
run_keeps P keep (c ∷ cs) m h = run_keeps P keep cs (call m c) (keep m c h)
