-- ===== src/Lib.antt =====
-- xlr8-flo: budgets, projects and the kernel under them (apps/api/src/flo), in Python over
-- PostgreSQL. Each command runs in one transaction of one organization: it reads and writes tables,
-- returns, or raises and is rolled back.
--
-- How it is modelled. The tables are lists in a record, a command is a function from the tables to
-- `Result (answer × tables)`, and an exception is a value of `Problem`, beside which no tables come
-- back (Common/Problems). A SELECT is `find` or a sum over a list, and an UPDATE a map over the
-- rows. An amount of money is an integer that counts ten-thousandths of a currency unit, the scale
-- of the numeric(18,4) columns, over the native numbers (Common/Int); dates are day numbers, and
-- identifiers, UUIDs included, are numbers. The clock, `uuid4()` and random fractions are
-- arguments. One transaction runs at a time: row locks and savepoints are not modelled, nor is
-- tenancy.
--
-- Money (apps/api/src/flo/kernel/money.py): Money.antt has `quantize`, `Money` and `allocate`;
-- Money/Currencies is the table kernel/data/iso4217.json. Decimal's precision of 28 digits is not
-- modelled: `allocate` multiplies and divides exactly.
--
-- The ledger (apps/api/src/flo/modules/budget). Ledger/Types and Ledger/Tables are the rows and the
-- queries (models.py, ledger_rules.py, LedgerRepository); Ledger/Constraints is what the database
-- checks of an inserted row (migrations/20260826_0019_ledger.py and its successors), written out
-- from the SQL and not from the rules of ledger_rules.py;
-- Ledger/Settings is `effective_setting` of modules/org/service.py. Ledger/Post is `post_entry` of
-- ledger.py, in the stages of its body: `lock_balance`, `clashes`, `resolve`, `answer` (by
-- `replay_known` for a key that has an entry, by `post_new` for a new one), `check_funds`,
-- `insert_entry`. Ledger/Reservations and Ledger/Postings are the commands of reservations.py and
-- postings.py, which call `post_entry` and one another; the check of master data codes is a
-- parameter. Ledger/Paths is `common_path` of modules/projects/hierarchy.py, whose walk stops after
-- six nodes, as the query does; Ledger/Transfers is transfers.py, with `mode_for` of
-- funding_policy.py. Ledger/Commands joins all of these commands in a relation between tables.
--
-- Projects (apps/api/src/flo/modules/projects): Projects/Lifecycle is lifecycle.py with the
-- commands of service.py that change a status. What other modules say of a project (its holdings,
-- its open documents, a running approval, a published workflow) is an argument.
--
-- The kernel (apps/api/src/flo/kernel): Kernel/Jobs is jobs/queue.py, jobs/runner.py and
-- jobs/backoff.py for one worker, whose handlers are arguments; the loop of the runner takes the
-- list of the clock's readings before its deadline, so that it ends with that list.
-- A retry delay is a double in the source: the model counts 2^-52 seconds, from a random fraction
-- that counts 2^-53, and rounds half to even as the sum of backoff.py does.
-- Kernel/Idempotency is idempotency/store.py, where the advisory lock's answer is an argument.
--
-- Approvals (apps/api/src/flo/modules/approvals). Approvals/Values, Conditions, Grammar and
-- Validation are the conditions of schemas.py, conditions.py and validation.py, over a JSON type of
-- their own; an amount of a condition counts ten-thousandths, and `str.casefold` is a parameter.
-- Approvals/Graph is `walk` of preview.py, where a walk makes at most as many passes as the graph
-- has nodes, and `none` is the answer of a walk that does not end (a graph with a cycle, which
-- publication refuses). Approvals/Tables has the rows, and two interfaces: `Adapter`, which a
-- document module fills, and `Services`, the registry of adapters, the directory of identities and
-- the settings. Approvals/Members is eligibility.py with the parts of engine.py and delegation.py
-- that say who decides a task; Approvals/Evidence is `step_complete`, Approvals/Steps what
-- engine.py writes of routes and tasks, and Approvals/Engine its `start` and `advance`;
-- Approvals/Writes is DecisionWrite of schemas.py, Approvals/Decisions is decisions.py and
-- Approvals/Material is material.py. The digest of the material (SHA-256 of its JSON) is a
-- parameter. A set of identities is a list whose order does not matter. The adapters see their own
-- documents only, so that a hook cannot read the tables of the approvals. Approvals/Consistent is
-- about the agreement of instances and tasks under all of these commands.
--
-- Recursion is on lists, except for the two walks up a tree: `nearest` looks at six levels of
-- units, because the organization's own row ranks at distance six, and `upward` at six projects;
-- `walk_from` counts its passes, and the limits and the reader of conditions stop at the depth that
-- the limits set.
--
-- Not modelled: the administration of workflows and the read views of approvals, requisitions, the
-- outbox, identity and sessions, the HTTP layer, the web application and the infrastructure.
pub mod Common
pub mod Money
pub mod Approvals
pub mod Ledger
pub mod Projects
pub mod Kernel
