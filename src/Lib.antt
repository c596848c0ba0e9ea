-- ===== src/Lib.antt =====
-- A model of the abcdYi backend, an agentic procurement platform for apparel orders.
--
-- The program is a set of asynchronous services over one database session. A service fetches rows,
-- tests them, writes them and appends execution events; it answers with a row or raises. Orders move
-- along a state machine. External actions wait for a human approval that authorises one action.
--
-- Which file models which part:
--   Db (Rows, Session, Tenancy): src/db/models/*.py, src/execution_graph/writer.py and
--     src/db/tenant_scope.py. A session is a record of tables; a table lists its rows by primary key.
--   Approvals: src/approval_gates/service.py (create_approval_request, approve_request,
--     reject_request, require_approved).
--   Orders: src/orders/state_machine.py and src/rfq/state_machine.py (Machine), confirm_order of
--     src/order_confirmation/service.py, src/orders/service.py and src/logistics/service.py (Service),
--     buyer_sign_off and src/supplier_memory/service.py (SignOff). The database's order of a query
--     for the latest response is a parameter (LatestRecipient).
--   Quality: src/quality_ledger/service.py and src/replacement_alerts/service.py.
--   Qc: src/apparel_inspection/service.py and src/qc/service.py.
--   Lifecycle: sequences of calls of these services on one session.
--   Rfqs: src/rfq/service.py (create_rfq, send_rfq) and record_supplier_response of
--     src/supplier_responses/service.py (Responses); what the normalisation of an answer gives is a
--     parameter.
--   Drafting: approve_decision_option of src/decision_packets/service.py (Packets) and
--     create_order_from_approved_option of src/order_confirmation/service.py with the dates that it
--     plans (Plan, Service), and import_confirmed_order of src/order_confirmation/provider_handoff.py
--     (Handoff), where what the provider and the reading of its answer give is a parameter.
--   Monitoring: src/milestones/service.py (Milestones), src/production_monitoring/delay_predictor.py
--     (Predict) and src/production_monitoring/service.py (Service).
--   Drafts: src/aivan/execution/approval_state.py and channel_policy.py (Sending) and
--     src/aivan/db/repositories/draft_repo.py (Repository), with the approval and rejection by the web
--     API of src/aivan/api/main.py and src/aivan/openclaw/outbound_approval.py (Approval); nothing in
--     the repository calls approve_and_send of approval_state.py yet. What Python's strings do and
--     what the message services answer are parameters.
--   Intake: src/aivan/execution/rfq_execution.py, with the gates of execution/safety.py (Readiness) on the
--     sources of rfq/semantic_sources.py (Requirement), the classification and the key of an event
--     (Events), the tables and their repositories (Store, Projects), the drafts and messages
--     (Outreach), the handling of an RFQ (Flow, Verdicts) and of an
--     answer, and the ledger (Entry). What the
--     language model and service, the supplier data, the lead-time service, the parser of answers,
--     the templates and the message service answer is a record of functions (Services), another one at
--     each call. Kept, Handled and Entered carry a property of the store through the handling of an event.
--   Flows: src/m_side/communication/send_receive_state_machine.py (SendReceive) and
--     src/merchandiser/merchandiser_state_machine.py (Merchandiser).
--   Ranking: src/lead_time/path_ranker.py and calculator.py (Calculator).
--   Forms: src/dynamic_forms/service.py, src/field_versions/service.py and the tests on fields of
--     src/requirement_extraction/extractor.py (Extraction). What the language model extracts from
--     an inquiry is a parameter.
--   Benchmark: src/gpm/pricing/benchmark_engine.py (Engine, Percentiles) with the filters and units of
--     src/gpm/normalization. Prices are whole numbers of a smallest unit.
--   Upstream: src/m_side/upstream/option_engine.py (Options) and approval_gate.py (Approval).
--   Fsm: what runs of a transition table have in common. Prelude: shared helpers. Examples: runs.
--
-- Conventions. A service is a function from a session to a result and the session it leaves, also
-- where it raises (Prelude.Exec). UUIDs and points in time are natural numbers; the clock and the
-- identifiers of new rows are arguments. JSON columns that no code reads back are lists of named
-- values; in Intake the ids of new rows are the next numbers. Floating-point numbers are a
-- parameter (Prelude.Floats); that their comparison is an order is a hypothesis where it is needed.
-- Quantities and days are whole numbers, for which `int` is the identity.
-- There is no fuel: every loop of the modelled code runs over a list.
--
-- Not modelled: the web layer and its routes, the language model and channel clients, migrations,
-- scripts, the database adapters and the front end, which do input and output only; the drafting of
-- an RFQ's text and the reforecast of a delivery's feasibility, whose results are not read back by
-- the modelled code; the texts that only describe an option, a packet or a benchmark; the matching
-- of suppliers in src/matching, the texts of the messages and the payloads of the events of the
-- sales agent, and the rest of that agent in src/aivan, of the workspaces in
-- src/b_side, src/m_side and src/merchandiser and of the price integration in src/gpm; commits and
-- rollbacks of the database, so a session is what a service wrote before the caller commits it.
mod Prelude
mod Fsm
pub mod Db
pub mod Approvals
pub mod Orders
pub mod Quality
pub mod Qc
pub mod Lifecycle
pub mod Rfqs
pub mod Drafting
pub mod Monitoring
pub mod Drafts
pub mod Flows
pub mod Ranking
pub mod Forms
pub mod Benchmark
pub mod Upstream
pub mod Intake
mod Examples
