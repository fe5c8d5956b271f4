-- ===== src/Lib.antt =====
-- A verification library for the analyst agent over Oracle and SAP data: an agent proposes SQL, guard
-- rails and an analyst decide on it, and what is approved runs once on a reporting replica.
--
-- The program has two processes over one SQLite store. The MCP server (mcp_server/) offers the tools
-- describe_schema, propose_query, execute_query and sanity_check; the panel (control_panel/) lets an
-- analyst approve, reject and edit proposals, raise limits and change the policy.
--
-- Store: mcp_server/src/sap_agent_mcp/store.py. The tables are lists of rows in the order of
-- insertion, with the primary key looked up by `session.get`. Methods return a new store or raise;
-- one that raises leaves the store as it was, since its session is not committed. The clock and a
-- new id are arguments. The floats of Store/Limits are numbered in their order, and the arithmetic
-- on them is the record `Floats`, with no law assumed. Of the journal's `detail` only
-- the reason is kept, and no texts for people (policy_reason, error messages); the estimated cost,
-- a float that nothing decides on, is left out. Store/Queries are the methods that only read: the order
-- of the database is the record `OrderBy`, which says nothing of rows with equal values.
-- Database: db.py; Database.antt has `Database.run`, Explain the plan of a query and the replica's moment;
-- what the driver answers is an argument.
-- Config: config.py over an environment; Tracing: tracing.py, what a span carries of a call.
-- Sanity: sanity.py, and `_jsonable` of tools.py. Numbers of a result are fixed-point integers.
-- Semantic: semantic/models.py and semantic/loader.py. A directory is what its files parse to.
-- Guards: guards.py. Checks holds the six checks, Run their order and the verdict, Build what they
-- compare with; the SQL parser is the record `Parser`, whose one law is that a limit that is set is
-- found again. A text that its tokenizer refuses ends the check in an exception.
-- Tools: tools.py. A call returns its reply, the store that it leaves, and the statements that it
-- sends to the database; each refusal of the source is a constructor of the reply. What comes from
-- outside (clock, ids, the replica's moment, the database's answers) is a record for each call.
-- Tracing wraps the calls and is left out of them. Describe serves the dictionary.
-- Panel: control_panel/src/sap_agent_panel/app.py. Panel.antt has the handlers that write to the store,
-- Nominate the draft of a question with `nominate` of reference.py, and Routes every route with the
-- page that its template is given; the templates and the web framework are not part of the model.
-- Server: mcp_server/src/sap_agent_mcp/server.py, who calls and the tool that a request reaches.
-- System: histories of calls of both processes over one store, one call at a time. Life is the step
-- relation of a proposal, with the call behind each step.
-- Evals: of evals/src/sap_agent_evals, dataset.py reads the reference questions, trajectory.py and
-- pressure.py grade a recorded run, compare.py an answer by its rows, and judge.py an answer by its
-- text; Grade is evals/tools/grade_reference.py, which marks a run by all of them. A directory of
-- questions is the list of what its files parse to. Python's floats and their formatting are the
-- records `Floats` and `Printing`, with no law assumed. Expected is expected.py, the frozen gold answers,
-- with the hash an argument; Freeze is evals/tools/freeze_gold.py, Bridge is evals/tools/eval_bridge.py
-- and Runner the loop of evals/tools/run_reference.py over an environment that answers for the agent.
-- Common: shared types, the keyed tables, integers, and Python's strip, lower, upper and int on the
-- characters that each file names. Samples and Tests hold concrete data and runs.
--
-- There is no fuel: every loop of the source is a recursion on a list. Not modelled: the transport
-- (a library), SQL parsing (a library), templates, the metrics over all runs, and the scripts that print
-- reports (docs/tools/economics.py, evals/tools/instruction_coverage.py, smoke tests).
mod Common
pub mod Store
pub mod Database
pub mod Config
pub mod Tracing
pub mod Sanity
pub mod Semantic
pub mod Guards
pub mod Tools
pub mod Panel
pub mod System
pub mod Server
pub mod Evals
mod Samples
mod Tests
