-- ===== src/Authority/Tests.antt =====
-- The theorems about src/side_effects_lab/authority.py at the sample checks.
use side_effects_lab.Prelude.{true, false, none, [], ◌∷◌, ◌≡◌, ◌↔◌, refl}
use side_effects_lab.Prelude.Int.{pos}
use side_effects_lab.Prelude.Result.{ok}
use side_effects_lab.Text.{codes}
use side_effects_lab.Authority.Types.{
  revalidated, authorize, passive_pre_dispatch, AuthorityCheck, identity_mismatch,
  authority_id_mismatch, subject_mismatch, service_mismatch, operation_mismatch,
  intent_digest_mismatch, parameters_mismatch, compensation_not_authorized, cardinality_exceeded,
  auth_expired, allow, safe_stop,
}
use side_effects_lab.Authority.Decision.{move_of, is_permitted, is_matrix_row, AuthorityDecision}
use side_effects_lab.Authority.Grants.{Matches, WithinEffects, InTime}
use side_effects_lab.Authority.Decides.{Checked}
use side_effects_lab.Authority.Verdicts.{
  Asked, allows_iff, stops_iff, violation-First, decision_transition,
}
use side_effects_lab.Authority.Precedence.{First}
use side_effects_lab.Authority.Rows.{Row, Row-iff}
use side_effects_lab.Prelude.Exec.{returned}
use side_effects_lab.StateMachine.Machine.{new_machine, transition}
use side_effects_lab.StateMachine.Types.{
  OperationState, proposed, TransitionEvidence, TransitionRecord, authority_confirmed,
}
use side_effects_lab.Authority.Check.{facts, check_authority}
use side_effects_lab.Authority.Returns.{check_authority-returns_iff}
use side_effects_lab.Authority.Samples.{
  sample_hash, sample_digest, sample_grant, sample_candidate, request_at, decision_at, granted,
  stopped, denied, checked, early, late, later, violation_at, target_at, cause_at,
}

abbrev MatchesAt : AuthorityCheck → Type 0
MatchesAt c =
    Matches sample_grant c sample_digest (codes "{\"amount\":5}") (codes "{\"amount\":5}")
    × WithinEffects sample_grant c

-- At the tick of expiry the action is authorized.
allows_iff_example : ((decision_at authorize (pos 10)).disposition ≡ allow) ↔ (
    MatchesAt (request_at authorize (pos 10)) × InTime sample_grant (request_at authorize (pos 10)))
unfolding checked
allows_iff_example =
    allows_iff sample_hash sample_grant (request_at authorize (pos 10))
      (decision_at authorize (pos 10)) (checked authorize (pos 10) early) granted

-- One tick later a passive check stops safely.
stops_iff_example : ((decision_at passive_pre_dispatch (pos 11)).disposition ≡ safe_stop) ↔ (
    (passive_pre_dispatch ≡ passive_pre_dispatch)
    × (MatchesAt (request_at passive_pre_dispatch (pos 11))
        × (¬ InTime sample_grant (request_at passive_pre_dispatch (pos 11)))))
unfolding checked
stops_iff_example =
    stops_iff sample_hash sample_grant (request_at passive_pre_dispatch (pos 11))
      (decision_at passive_pre_dispatch (pos 11)) (checked passive_pre_dispatch (pos 11) late)
      stopped

-- The same tick makes a request for authority a violation.
violation-First_example :
    First authorize
      (facts sample_grant
        (request_at authorize (pos 11))
        sample_digest
        (codes "{\"amount\":5}")
        (codes "{\"amount\":5}"))
      (decision_at authorize (pos 11)).reason
      (identity_mismatch ∷ authority_id_mismatch ∷ subject_mismatch ∷ service_mismatch
        ∷ operation_mismatch ∷ intent_digest_mismatch ∷ parameters_mismatch
        ∷ compensation_not_authorized ∷ cardinality_exceeded ∷ auth_expired ∷ [])
unfolding checked
violation-First_example =
    violation-First sample_hash sample_grant (request_at authorize (pos 11))
      (decision_at authorize (pos 11)) (checked authorize (pos 11) later) denied violation_at

abbrev confirmation : TransitionEvidence
confirmation = record {
  evidence_id = "evidence-1";
  cause = authority_confirmed;
  fresh = true;
  authoritative = true;
  exact_identity = true;
  postcondition_verified = false;
  cardinality_valid = false;
}

asked : Asked proposed OperationState.authorized
asked = ((λ e. refl), (λ e. cc))

decision_transition_example :
    (r : TransitionRecord) × ((transition OperationState.authorized confirmation sample_candidate
        none
        (new_machine sample_candidate)).0
      ≡ returned r)
unfolding new_machine
decision_transition_example =
    decision_transition sample_hash sample_grant (request_at authorize (pos 10))
      (decision_at authorize (pos 10)) (new_machine sample_candidate) OperationState.authorized
      confirmation granted target_at cause_at (λ e. cc) asked

Row-iff_example :
    (((is_permitted (move_of none none) ≡ true)
        × (is_matrix_row allow revalidated (move_of none none) ≡ true))
      ↔ Row allow revalidated none none)
Row-iff_example = Row-iff allow revalidated none none

check_authority-returns_iff_example :
    ((d : AuthorityDecision) × (check_authority sample_hash sample_grant
          (request_at authorize (pos 11))
        ≡ ok d))
    ↔ Checked sample_hash sample_grant (request_at authorize (pos 11))
check_authority-returns_iff_example =
    check_authority-returns_iff sample_hash sample_grant (request_at authorize (pos 11))
