-- ===== src/Lib.antt =====
-- Side Effects Lab is the kernel of a laboratory for agents that use tools: an agent proposes an
-- action, an authority check decides whether a grant covers it, a state machine follows the operation
-- from its proposal to a terminal state, a clock and a scheduler give a run its order of events, and
-- an SQLite ledger keeps what happened. All of it lies under src/side_effects_lab/.
--
-- The parts of the program and the modules about them:
--   Prelude           shared names: Boolean tests, lists, Python's integers (Int), functions that may
--                     raise (Result), methods that keep their state beside an exception (Exec)
--   Text              texts as lists of code points, the regular expressions of the identifiers, and
--                     decimal digits
--   Models            src/side_effects_lab/models.py: the identifier types (Identifiers), canonical
--                     values with `_reject_url_values`, `_freeze_value`, `_thaw_value` and the
--                     validation of a ParameterMap or EvidenceMap (Values), integers and optional
--                     fields (Bounds), events and claims (Events), faults (Faults); theorems in
--                     Freezing, Schemes, Screening, Accepting, Schedules, Flat (values whose texts are ASCII) and
--                     Revalidation
--   Canonical         src/side_effects_lab/canonical.py: `_normalize`, `canonical_json_bytes`,
--                     `canonical_digest` (Json); theorems in Ascii, Order and Reordering
--   StateMachine      src/side_effects_lab/state_machine.py: the enumerations, the table of
--                     transitions and the guards (Types), the class with its methods (Machine), the
--                     state graph as a relation (Graph); what one call does (Branches, Outcome,
--                     Acceptance) and what runs keep (Runs, Coherence, Safety, Opening)
--   Authority         src/side_effects_lab/authority.py: grants and requests (Types), the evidence
--                     contract (Evidence), AuthorityDecision (Decision), `check_authority` (Check);
--                     the choice of the reason (Precedence), the matrix as a relation (Rows), the
--                     conditions of a grant (Grants, Conditions), what a decision says (Decides,
--                     Verdicts), and when there is one (Payload, Entries, Delivery, Validity, Returns)
--   Clock             src/side_effects_lab/clock.py: LogicalClock (Time), DeterministicScheduler
--                     (Scheduler), RunScopedIdAllocator (Allocator), `make_run_id` (RunId); theorems
--                     in Order, Calls, Runs, Drain, Unique, Distinct and Collisions
--   Ledger            src/side_effects_lab/ledger.py: the tables with their constraints (Tables), the
--                     columns that are read back (Decoding), the table of events with `append_event`
--                     and the transactions (Events), `_load_machine_unlocked` (Replay),
--                     `register_operation`, `operation` and `operations` (Operations),
--                     `_persist_transition` (Persisting), `transition` and `record_dispatch`
--                     (Transitions); rules for the steps of a method (Steps); the events (Inserting,
--                     Appending, Accepting, Dating), loads (Rows, Replaying, Loading, Reachable), what
--                     a call of the machine leaves (Trying, Effects, Advance, Contract), each
--                     operation (Registering, Moving, Attempting, Dispatching, Listing), and runs of
--                     calls against a map of state machines (Soundness, Refinement); when a transition
--                     is let in (Allowing, Recording, Continuing, Succeeding, Granting, Issuing,
--                     Permitting); the comparison of the events with the operations in
--                     `_validate_contents` (Matching, Validating, Belonging, Owning), and the checks
--                     of paths (Paths, Rooted)
--   Schemas           src/side_effects_lab/schema_generation.py: rendering (Rendering),
--                     `write_schemas`, `schema_drift` and `main` on a directory (Files); what a write
--                     leaves (Writing) and when there is no drift (Current)
-- Each part has a module Tests with runs at concrete inputs.
--
-- How the code is read:
--   - An object is a record of its fields, and a method a function from the object to its outcome and
--     the object after it; a method that raises keeps what it had changed.
--   - The classes of exceptions are kept and their messages left out, but for the reasons that the
--     state machine records, which are part of its history.
--   - Checks with `isinstance` or `type` are met by the types, except where a value of any type is an
--     argument: the clock's arguments and the values of maps keep the alternatives that the code tells
--     apart.
--   - A contract may have been made without its validators, so that `check_authority` validates its
--     arguments again here as it does there. `AuthorityGrant.model_validate` and the like validate the
--     fields in turn; which of several failures pydantic reports is not modelled, only that it raises.
--   - A text is a list of code points, and the validation of a map accepts every text as a string. A
--     text with a lone surrogate is left to `encode`, which refuses it as UTF-8 does; whether pydantic
--     refuses it before that is not modelled.
--   - A dict is an association list. Its keys are distinct in Python; the theorems do not need it,
--     except where they say so.
--   - The heap of the scheduler is the list of its entries in order, which is what `heappush` and
--     `heappop` promise.
--   - The clock that a scheduler is given is shared. It is a part of the scheduler's state, and other
--     users' calls of it are steps of their own.
--   - SHA-256 is a parameter, a function from bytes to a text. Nothing is assumed of it, but where a
--     theorem says so, that `hexdigest` returns 64 lower-case hexadecimal digits.
--   - Python's integers have no bound; the counter of the allocator stops at 2 ^ 64 - 1 as in the code.
--     The limit on the digits that Python prints of an integer is not modelled.
--   - An SQLite table is the list of its rows, and a transaction whose body raises leaves it as it was.
--     SQLite's integers have 64 bits, and a larger one raises OverflowError. The rows that a SELECT
--     gives are filtered and sorted as its clauses say; an INSERT checks the table's constraints.
--   - The exception that the state machine raises inside `transition` or `record_dispatch` of the ledger is
--     raised again after the commit; its class is kept, and its record is the one that was persisted.
--   - What the operating system answers about a path is an argument; permission bits are read off the
--     mode by division, six bits for `0o077` and the three above them for `0o700`.
--   - A directory is the list of its files with distinct names. The JSON schema that pydantic makes of a
--     model is a parameter.
--   - A loop is a recursion on a list or a text. Only the digits of a number are made on fuel, one more
--     than the number, which is enough because each step divides by ten.
--
-- Not modelled: `create` and `reopen` of src/side_effects_lab/ledger.py, which open files, SQLite's own
-- checks in `validate`, and `events`, which reads the evidence back from JSON; the methods of FrozenMap
-- and StrictModel in models.py that only refuse a change; and the command line of cli.py, which prints
-- one line.
pub mod Prelude
pub mod Text
pub mod Models
pub mod Canonical
pub mod StateMachine
pub mod Authority
pub mod Clock
pub mod Ledger
pub mod Schemas
