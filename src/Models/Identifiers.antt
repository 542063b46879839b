-- ===== src/Models/Identifiers.antt =====
-- The identifier types of src/side_effects_lab/models.py: what the `TypeAdapter` of each accepts. A
-- validation returns its argument unchanged, so a Boolean test says all of it.
use side_effects_lab.Prelude.{Bool, true, false, ◌&&◌, ◌==◌, none, some, ◌≡◌, refl, length, all}
use side_effects_lab.Text.{
  Text, codes, is_lower, is_digit, is_lower_alnum, is_token_char, is_name_char, is_hex, token,
  after, token_after, within,
}

-- `^<prefix>[a-z0-9][a-z0-9-]*$`, at most 128 characters.
abbrev prefixed_id : Text → Text → Bool
unfolding within token_after
prefixed_id prefix s = within 128 s && token_after prefix is_lower_alnum is_token_char s

unfoldable pub is_run_id : Text → Bool
unfolding within token_after
is_run_id = prefixed_id (codes "run-")

unfoldable pub is_subject_id : Text → Bool
unfolding within token
is_subject_id s = within 128 s && token is_lower_alnum is_token_char s

unfoldable pub is_action_id : Text → Bool
unfolding within token_after
is_action_id = prefixed_id (codes "action-")

unfoldable pub is_operation_key : Text → Bool
unfolding within token_after
is_operation_key = prefixed_id (codes "op-")

unfoldable pub is_attempt_id : Text → Bool
unfolding within token_after
is_attempt_id = prefixed_id (codes "attempt-")

unfoldable pub is_effect_id : Text → Bool
unfolding within token
is_effect_id s = within 128 s && token is_lower is_token_char s

unfoldable pub is_authority_id : Text → Bool
unfolding within token_after
is_authority_id = prefixed_id (codes "auth-")

unfoldable pub is_workflow_id : Text → Bool
unfolding within token_after
is_workflow_id = prefixed_id (codes "workflow-")

unfoldable pub is_fault_id : Text → Bool
unfolding within token_after
is_fault_id = prefixed_id (codes "fault-")

-- `^[a-z][a-z0-9_]*$`, at most 64 characters: a service, an operation, a parameter.
unfoldable pub is_service_name : Text → Bool
unfolding within token
is_service_name s = within 64 s && token is_lower is_name_char s

unfoldable pub is_operation_name : Text → Bool
unfolding within token
is_operation_name s = within 64 s && token is_lower is_name_char s

unfoldable pub is_parameter_name : Text → Bool
unfolding within token
is_parameter_name s = within 64 s && token is_lower is_name_char s

-- `^SEL-[0-9]{3}$`, at most 7 characters.
unfoldable pub is_scenario_id : Text → Bool
unfolding within after
is_scenario_id s =
    within 7 s
    && elim (after (codes "SEL-") s) [ none ↦ false | some r ↦ length r == 3 && all is_digit r ]

-- `^sha256:[0-9a-f]{64}$`
unfoldable pub is_digest : Text → Bool
unfolding after
is_digest s = elim (after (codes "sha256:") s) [
  | none ↦ false
  | some r ↦ length r == 64 && all is_hex r
]

action_id_accepts : is_action_id (codes "action-send-1") ≡ true
unfolding is_action_id
action_id_accepts = refl

action_id_rejects : is_action_id (codes "action--send") ≡ false
unfolding is_action_id
action_id_rejects = refl

scenario_id_accepts : is_scenario_id (codes "SEL-042") ≡ true
unfolding is_scenario_id
scenario_id_accepts = refl
