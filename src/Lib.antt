-- ===== src/Lib.antt =====
-- daimon: an operations daemon whose agents ask a broker to act on infrastructure.
--
-- The parts modelled are those that decide whether an action may happen, and those that run plans
-- of actions. An agent asks the broker to `execute` an operation on a target; the broker asks the
-- guard (kill switch, policy, approval by an operator), looks up the target in the inventory and
-- the credential in the vault, hands the operation to a transport, and notes the call in the
-- audit log. The orchestrator runs a plan step by step: it dispatches each capability over the bus
-- of the runtime, whose registry knows which agent provides it, and compensates the steps that
-- succeeded when one fails. The drivers are the agents that answer: each validates the parameters
-- of a call, renders it to an operation and asks the broker. Triage opens a plan for an anomaly of
-- the observer and does not run it.
--
-- Files:
--   Common            results, texts, integers, maps, and the interfaces of serde_json and semver
--   Core/Capability   crates/daimon-core/src/capability.rs (Capability, is_read)
--   Audit/Event       crates/daimon-audit/src/event.rs (ActionKind, NewAuditEvent)
--   Anchor            crates/daimon-anchor/src: canonical.rs (Canonical) and verify.rs (Verify)
--   Vault/Refspec     crates/daimon-vault/src/refspec.rs (CredentialRef)
--   Inventory         crates/daimon-inventory/src: refspec.rs (TargetRef), target.rs, and the
--                     InMemoryRegistry of registry.rs
--   Guard             crates/daimon-guard/src: kill_switch.rs (Kill, and its watchers in Watch),
--                     policy.rs (Policy), approvals.rs (Approvals) and lib.rs (PreFlight)
--   Broker            crates/daimon-broker/src: request.rs (Request), broker.rs with
--                     lint_write_capabilities (Lint) and execute (Execute), admin.rs (Admin); the
--                     operations of crates/daimon-transport/src/op.rs (Op)
--   Runtime           crates/daimon-runtime/src: registry.rs, dispatcher.rs, and of supervisor.rs the
--                     restarts
--   Orchestrator      crates/daimon-orchestrator/src: plan.rs (Plan); of service.rs the statements
--                     (Store), create_plan (Create), one dispatch (Dispatch) and run_plan (Run)
--   Driver            crates/daimon-driver/src: lib.rs and error.rs (Class), param.rs (Param),
--                     types.rs (Returns); of connector.rs the profiles (Profile), `substitute` and
--                     the render_* functions (Render), ConnectorDriver (Connector), from_dir
--                     (Connector/Load), the replies (Connector/Reply), and Driver and Agent for it
--                     (Connector/Bus)
--   RouterOs          crates/daimon-driver-firewall-routeros/src/lib.rs: build_command (Command),
--                     build_capabilities (Catalog), dispatch and Agent (Dispatch), Driver (Verbs)
--   Triage            crates/daimon-triage/src/lib.rs, and AnomalyDetected of
--                     crates/daimon-observer/src/event.rs
--   Examples          the theorems at concrete inputs
--
-- State is passed explicitly. A table of Postgres is a list of rows; a record says what the
-- database does at the n-th statement (whether it fails, its time, the ids it draws, and for the
-- approvals what other sessions wrote before it). The kill switch is given by its value at each
-- statement; its watchers are a step relation, a step from one `await` to the next, with the steps
-- of an operator who writes or removes the file. The bus is given by the registry, the correlation
-- id and the envelopes that are heard at each dispatch. JSON and versions are records of
-- operations with the laws that the proofs use; inventory, vault, transports and audit sink of the
-- broker are a record of functions, as they are trait objects in the program, and so are vault and
-- inventory for the calls of the administration, each over a store of its own. What the broker
-- answers to a driver is a function of the request, and so is the decoding of a request by serde.
-- Ids are numbers, times are milliseconds, texts are lists of code points.
--
-- Three loops run on fuel. `wait_for_decision` has one round for each millisecond of its timeout and
-- one more, which is enough as each round sleeps for at least one. `run_plan` has one round for each
-- step and one more, which is enough as each round but the last ends a pending step. `substitute`
-- has one turn for each character of the template, which is enough as each turn but the last takes at
-- least two, an opening brace and a closing one.
--
-- Not modelled: the console and its server functions, the language models, memory, graph, gateway,
-- the collectors of the observer and the signing of anchors; the reading of profiles by std::fs and
-- toml; SQL beyond the statements above; cryptography; logging; the mirror of plans to the graph, and
-- the maps of the supervisor.
pub mod Common
pub mod Core
pub mod Audit
pub mod Anchor
pub mod Vault
pub mod Inventory
pub mod Driver
pub mod Guard
pub mod Broker
pub mod RouterOs
pub mod Runtime
pub mod Orchestrator
pub mod Triage
pub mod Examples
