-- ===== src/Lib.antt =====
-- cobalt_wren: a model of the core of the framework, and what is proved of it. Paths are from the
-- repository's root, under src/cobalt_wren/.
--
-- Parts and files:
--   Core/Value       the values that cross the program's interfaces
--   Core/Redaction   core/redaction.py: redact_mapping, redact_value, redact_text, is_sensitive_key
--   Core/Summary     core/summary.py: truncate_text, preview_text
--   Core/ResultSafety
--                    core/result_safety.py: safe_run_output_payload, safe_run_error_message
--   Checkpoint/Errors, Normalize, Canonical, Types
--                    integrations/checkpoint/base.py: one function per normalizer, and write_request,
--                    stored_checkpoint and read_result for the constructors of the value types
--   Checkpoint/MemoryStore
--                    integrations/checkpoint/memory_store.py: save, load_latest, load_checkpoint and
--                    list_for_run, from a store to a result and the next store. History is the
--                    specification, a list of records; Refinement, Reads and Abstract relate the two,
--                    Guarantees and Heads have what a client relies on
--   Runs/Model, Policy, Transition, Execution, Actions
--                    WorkflowResumeRequest of api/workflow.py; apps/automation: models/run.py,
--                    policies/runs.py, services/runs.py,
--                    services/execution.py, services/execution_control.py, execution_result.py
--   Jobs             apps/automation: models/job.py and services/jobs.py, over Runs/Actions
--   Plugins/Registry, Plugins/Requirements
--                    plugins/registry.py and workflows/requirements.py
--   Integrations/ArtifactKeys, Integrations/WorkflowRegistry
--                    integrations/artifact/keys.py, and registration and lookup of
--                    integrations/workflows/registry.py
--   Integrations/Artifacts, Integrations/Artifacts/MemoryStore
--                    integrations/artifact/base.py and memory_store.py: put_artifact, get_artifact
--                    and list_for_run
--   Integrations/Emission
--                    integrations/artifact/emission.py: artifact_identity for the constructor of an
--                    identity, and build_artifact_storage_key
--   Native/Schema    native/schema.py: validate_schema_value; Conforms is what a schema means
--   Native/Policies, Names, Buffer, Steps, Replay, Executable
--                    native/policies.py and native/__init__.py: the retry policy, the names of steps,
--                    the buffered observations, NativeWorkflowContext.step, the replay to a sink and
--                    NativeExecutable.execute. Steps/Order is the state machine of the operations
--   Native/Artifacts native/helpers.py: the names and slots of artifacts
--   Core/Compare     `==` and `<` on values, for the two
--   Prelude          shared types, tests, lists, texts, dictionaries and results
--   */Examples       the theorems at concrete inputs
--
-- State and errors. A store, a table and the control plane are values that each call takes and
-- returns. An exception is the `err` of a Result; what was written before it stays, so services
-- return the state beside the result. A dictionary is the list of its items in the order of
-- insertion. A text is the list of its code points; `lower` maps the letters of ASCII only, where
-- `str.lower` also maps others, U+0130 and U+212A among them, to ASCII.
-- Values are trees: a guard against cyclic containers never fires.
--
-- Exceptions beyond `Exception`. `except Exception` lets a BaseException pass, such as a
-- KeyboardInterrupt or a CancelledError. Where a workflow or a step raises one, the model does as
-- the code: a dispatch leaves its registry entry and its events open, a job keeps its status, the
-- attempt of a step stays open, and the observations are not replayed. Elsewhere none is raised. Of
-- the errors of the database only those that are named are modelled, and summarising the input or
-- the output of a step does not fail.
--
-- Concurrency. A call under a lock, or one transaction, is one step. While a workflow executes the
-- rest of the control plane may change in any way: Session.invoke returns the plane that it leaves.
-- The jobs of several workers are sequences of steps on the table in any order.
--
-- Parameters: SHA-256 (with digests of 64 digits), the substitutions of the regular expressions,
-- `str` of values that are no text, the workflow itself, and readings of the clock. Runs takes the
-- summaries of core/result_safety.py as any two functions.
--
-- Native steps. What a workflow's functions, the control and the clock do is any change of a state
-- of the world. A function runs to its end before the next step begins. Numbers are exact, a float
-- being a fraction of a power of two; the products and differences of floats are parameters, of
-- which nothing is assumed.
--
-- Fuel. `decimal`, which prints a number, has n + 1 rounds for n, and each round divides by ten. The
-- schema validation has one round more than the schema has levels, which Native/Schema/Rounds shows
-- to suffice; Python's own limit on recursion, which a deep schema or value meets with a
-- RecursionError, is not modelled, here or in redaction. A delay has as many rounds as its caller
-- gives, since whether it ends hangs on the differences of floats; runs_out tests that they suffice.
-- All else is structural recursion.
--
-- Not modelled: the stores on files and databases, artifact emission beyond its keys, configuration,
-- assembly, native steps that run at once or inside one another, the other native helpers, adapters
-- of other engines, the user interface and the command line; log lines, and the messages and
-- metadata of exceptions but for the names they stand for.
pub mod Checkpoint
pub mod Core
pub mod Integrations
pub mod Jobs
pub mod Native
pub mod Plugins
pub mod Prelude
pub mod Runs
