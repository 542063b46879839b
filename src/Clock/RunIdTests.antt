-- ===== src/Clock/RunIdTests.antt =====
-- Run identifiers made by src/side_effects_lab/clock.py, and the theorems at them.
use side_effects_lab.Prelude.{String, ℕ, true, [], ◌≡◌, ◌↔◌, ◌⊎◌, refl}
use side_effects_lab.Prelude.Int.{pos}
use side_effects_lab.Prelude.Result.{ok}
use side_effects_lab.Text.{Text, codes}
use side_effects_lab.Text.Decimal.{decimal}
use side_effects_lab.Models.Identifiers.{is_scenario_id, is_subject_id}
use side_effects_lab.Clock.Time.{int}
use side_effects_lab.Clock.Allocator.{new_allocator}
use side_effects_lab.Clock.RunId.{make_run_id, make_run_id_total, IsHexdigest}
use side_effects_lab.Clock.Collisions.{Collide, make_run_id_same}

-- A hash that does not read its input.
abbrev constant_hash : Text → String
constant_hash bytes = "00112233445566778899aabbccddeeff00112233445566778899aabbccddeeff"

constant_hash-IsHexdigest : IsHexdigest constant_hash
constant_hash-IsHexdigest bytes = (refl, refl)

scenario-valid : is_scenario_id (codes "SEL-001") ≡ true
unfolding is_scenario_id
scenario-valid = refl

subject-valid : is_subject_id (codes "subject-1") ≡ true
unfolding is_subject_id
subject-valid = refl

abbrev sample_run_id : Text
sample_run_id = codes "run-00112233445566778899aabbccddeeff00112233445566778899aabbccddeeff"

make_run_id_total_example :
    (make_run_id constant_hash "SEL-001" (int (pos 7)) "subject-1" ≡ ok sample_run_id)
    × (new_allocator sample_run_id
        ≡ ok (record { run_id = sample_run_id; attempt_counter = 0; effect_counters = [] }))
make_run_id_total_example =
    make_run_id_total constant_hash "SEL-001" 7 "subject-1" constant_hash-IsHexdigest scenario-valid
      subject-valid

-- The constant hash gives two runs one identifier, since it collides on their canonical texts.
make_run_id_same_example :
    (make_run_id constant_hash "SEL-001" (int (pos 7)) "subject-1"
      ≡ make_run_id constant_hash "SEL-001" (int (pos 8)) "subject-1")
    ↔ (((codes "SEL-001" ≡ codes "SEL-001")
          × (◌≡◌ {A = ℕ} 7 8)
          × (codes "subject-1" ≡ codes "subject-1"))
        ⊎ Collide constant_hash
            (codes "{\"scenario_id\":\"SEL-001\",\"seed\":7,\"subject_id\":\"subject-1\"}")
            (codes "{\"scenario_id\":\"SEL-001\",\"seed\":8,\"subject_id\":\"subject-1\"}"))
unfolding decimal
make_run_id_same_example =
    make_run_id_same constant_hash constant_hash-IsHexdigest "SEL-001" "SEL-001" "subject-1"
      "subject-1" scenario-valid scenario-valid subject-valid subject-valid 7 8
