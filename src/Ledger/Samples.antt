-- ===== src/Ledger/Samples.antt =====
-- A ledger of src/side_effects_lab/ledger.py with one operation, and calls on it.
use side_effects_lab.Prelude.{true, List, [], ◌∷◌, refl}
use side_effects_lab.Prelude.Int.{pos}
use side_effects_lab.Models.Identifiers.{is_action_id, is_operation_key, is_digest, is_authority_id}
use side_effects_lab.StateMachine.Types.{
  authorized, authority_confirmed, OperationIdentity, operation_identity, TransitionCause,
  TransitionEvidence, transition_evidence, is_evidence_id,
}
use side_effects_lab.Ledger.Soundness.{LedgerCall, register, move}
use side_effects_lab.Ledger.Replaying.{IsIdentity, IsEvidence}

abbrev pub refund : OperationIdentity
refund = record {
  action_id = "action-refund-1";
  operation_key = "op-refund-1";
  intent_digest = "sha256:00112233445566778899aabbccddeeff00112233445566778899aabbccddeeff";
  authority_id = "auth-refund-1";
}

pub refund-IsIdentity : IsIdentity refund
unfolding operation_identity is_action_id is_operation_key is_digest is_authority_id
refund-IsIdentity = refl

abbrev pub proof_of : TransitionCause → TransitionEvidence
proof_of c = record {
  evidence_id = "evidence-1";
  cause = c;
  fresh = true;
  authoritative = true;
  exact_identity = true;
  postcondition_verified = true;
  cardinality_valid = true;
}

pub proof-IsEvidence : (c : TransitionCause) → IsEvidence (proof_of c)
unfolding transition_evidence is_evidence_id
proof-IsEvidence c = refl

abbrev pub opening : List LedgerCall
opening =
    register refund (pos 1)
    ∷ move "action-refund-1" authorized (proof_of authority_confirmed) refund (pos 2)
    ∷ []
