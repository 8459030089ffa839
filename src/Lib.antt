-- ===== src/Lib.antt =====
-- OpenMuse runs an agent's actions under a host's authority. A planner proposes actions; the
-- agent looks the tool up in the host's registry, checks the arguments against the schema
-- copied at registration, asks the policy, writes an intent to the audit log, runs the tool and
-- writes the outcome. The policy asks an authority: the host's own one-time approvals, or a
-- grant delegated to a subagent with a quota in the host's ledger. Connectors run behind scopes
-- that the host grants; host events and approval requests bring a person's decision in; tasks
-- and memories are kept in stores, and the memories are checked against the audit chain.
--
-- The parts, each modelled from the file named:
-- * Models (src/openmuse/models.py): Action, ActionStatus, ToolResult.
-- * Approvals (src/openmuse/approvals.py): ApprovalAuthority with issue and verify; the set of
--   used tokens is a list, and calls are a sequence, as the lock makes them.
-- * Policy (src/openmuse/policy.py): Policy.check over the interface Authority, which
--   ApprovalAuthority.verify and DelegatedAuthority.verify have the shape of.
-- * Registry (src/openmuse/registry.py): ToolRegistry.add, get, descriptor and catalogue.
-- * Core (src/openmuse/core.py, validation.py): Agent.execute with every path on which it
--   records, returns or raises, and Agent.run. The log is the interface AuditSink; Core/Logged
--   fills it with the append of AuditLog.
-- * Subagents (src/openmuse/subagents.py): Grant, GrantLedger.consume as one transaction, and
--   DelegatedAuthority with verify and narrow.
-- * Connectors (src/openmuse/connectors.py): ScopeGrants, ConnectorTool.run and the check of
--   ReadOnlyConnector.
-- * HostEvents (src/openmuse/host_events.py): ReplayStore, HostEventVerifier and
--   HostDecisionEndpoint.post.
-- * ApprovalService (src/openmuse/approval_service.py): create, decide and the interruption of
--   pending requests at a restart.
-- * Tasks (src/openmuse/tasks.py): TaskStore.
-- * Memory (src/openmuse/memory.py): MemoryStore with the events that it chains, in
--   Memory/Check verify_memory, and in Memory/Search the search with its ranking.
-- * Audit (src/openmuse/audit.py): the log's append and verify_chain; the file is its lines,
--   and in Audit/Tail and Audit/Bytes the bytes that _last_record searches from the end.
-- * Cron and Scheduler (src/openmuse/scheduler.py): the parsing of cron fields,
--   CronSchedule.next_after, and the table of jobs with claim_due, heartbeat, mark_run and
--   retry_unknown.
-- * Keyring (src/openmuse/audit.py): KeyringAuditKeys over a credential store with a slot for
--   each key, and in Keyring/Document FileAuditKeys, whose calls hold its lock.
-- * Vault (src/openmuse/secrets.py, src/openmuse/broker.py): SecretVault and the brokered
--   tools; AES-GCM is a parameter.
-- * Limits (src/openmuse/evidence.py, src/openmuse/ephemeral.py, src/openmuse/effects.py):
--   RetryBudget, EphemeralBroker, CredentialUseGrant and PurchaseEffect.validate.
-- * Anchor (src/openmuse/audit_anchor.py, src/openmuse/checkpoint_publisher.py): checkpoints
--   and their publication.
-- * MasterKey (src/openmuse/keyring_keys.py): KeyringMasterKey.load_or_create and the trusted
--   backends.
-- * Channels (src/openmuse/channels): the web channel, with its inbox and outbox.
-- * WebChat (src/openmuse/web_chat.py): ChatSession over the agent, the approval service and
--   the channel, as one state, and the handler of POST requests. A message runs at most
--   max_steps rounds.
-- * OAuth (src/openmuse/google_oauth.py): GoogleOAuthManager over the vault; the transport is a
--   parameter.
-- * GoogleApi (src/openmuse/google_mail_connector.py,
--   src/openmuse/google_calendar_connector.py): the calls of the two connectors.
-- * Tools (src/openmuse/tools.py): ReadFile and WriteFile on a tree of directories, and
--   FetchURL over a network that is a parameter.
-- * Delegation (src/openmuse/approvals.py, src/openmuse/subagents.py): ApprovalAuthority.verify
--   and DelegatedAuthority.verify as instances of Policy's interface Authority, and what a
--   subagent's policy lets through.
-- * Worker (src/openmuse/bounded_process.py, src/openmuse/isolated_worker.py,
--   src/openmuse/container_worker.py, src/openmuse/worker_tool.py): the command of a container
--   and the limits and checks on what its process answers; the process is a parameter.
-- * Common holds what they share: dictionaries in insertion order, JSON values with Python's
--   equality, texts as bytes or code points, integers, and Python's exceptions as values.
--   Samples holds the parameters that the tests run at.
--
-- Parameters. hashlib, hmac and json are the fields of Runtime, and what is needed of them is
-- stated as RoundTrips and AsciiDigests; jsonschema is the field validates of Host, which may
-- raise; AuditText is what json.loads and the fields give of a line to verify_memory; a tool, a
-- connector and a planner are functions on a state of their own. The clock's readings and fresh
-- identifiers are arguments of the operations, one for each reading in the source. SQLite
-- tables are dictionaries by their primary key, and a transaction that raises leaves them
-- alone.
--
-- Loops are recursion on the list or, for Agent.run, on max_steps. CronSchedule.next_after has
-- as many rounds as there are minutes before its deadline, 2635200, and the range of a cron
-- field as many as it has values when the step is one; a larger step needs fewer. Numbers are
-- unbounded, as Python's are.
--
-- Left out in modelled parts: a carriage return in a line of the audit file, which json.dumps
-- never writes, would end a line where verify_chain reads the file as text. Not modelled: the
-- calls of the system below the file tools, the processes themselves, windows, the network and
-- the SQLite files themselves; the services that keep secrets; the simulated connectors; the
-- web page and the command line. Most of them are input and output, or call services that are
-- not in the repository.
pub mod Common
pub mod Models
pub mod Runtime
pub mod Approvals
pub mod Policy
pub mod Registry
pub mod Core
pub mod Subagents
pub mod Connectors
pub mod HostEvents
pub mod ApprovalService
pub mod Tasks
pub mod Memory
pub mod Audit
pub mod Keyring
pub mod Vault
pub mod Limits
pub mod Anchor
pub mod MasterKey
pub mod Worker
pub mod Cron
pub mod Delegation
pub mod Channels
pub mod WebChat
pub mod OAuth
pub mod GoogleApi
pub mod Tools
pub mod Scheduler
pub mod Samples
