-- ===== src/Lib.antt =====
-- Guarded paper trading, deferred forecasts, continuous blocks and SplitMix64 words of the
-- sharpearena Python package.
--
-- The code is in crates/sharpearena-py/python/sharpearena: paper_trading.py and counterfactual.py,
-- forecast_contract.py and deferred.py, data_blocks.py, splitmix_inversion.py,
-- eval_seeds.py. In the first two, a
-- session turns a decision into orders. A risk guard assesses the batch against a shadow account,
-- and each order then has a lifecycle in a durable store, crosses to a broker, and is
-- asked about by its client order id where the outcome was lost. A counterfactual ledger keeps what
-- was intended beside what the broker's receipts confirm, as revisions that are only appended. In
-- the forecasts, a contract is fixed first, a desk stamps claims under it with a clock that only
-- the harness moves, and outcomes settle the claims after the episode. The blocks keep episode
-- windows off the gaps of a date axis. The words are the finalizer of the generator and its inverse.
--
-- Which file models what:
--   Prelude      Boolean tests, lists, integers and dicts (association lists in insertion order)
--   Python       what the code takes from the language: Json values, exceptions as `Result`, methods
--                that keep what they wrote before a raise as `Method`, with the rules for what a
--                method keeps or ensures; `Runtime` is the record of float, text, JSON and hash
--                functions, a parameter of which nothing is assumed but what a theorem names
--   Splitmix     `mix64`, `unmix64`, `next_word`, `candidate_states_from_unit`; Xor has the laws of
--                exclusive or, Inversion and Candidates prove
--   Curriculum   `AdaptiveScheduler`; Tallies and Selection prove
--   Seeds        eval_seeds.py: the named seeds, the sealed ones (Band proves), and the regression gate
--                (Regression)
--   Blocks       data_blocks.py from its timestamps to the window of `make_block_env`; Segments,
--                Windows and Sample prove
--   Forecast     `ForecastContract`: its construction and `legacy`; Dicts: `to_dict`, `from_dict`;
--                Valid, Again and Dicts/Roundtrip prove
--   Deferred     `Claim` and `_validate`; Desk: `DeferredDesk`; Score: `score_claim`; Resolve:
--                `Outcome`, `resolve_claims`; Series: `outcomes_from_series`; their children prove
--   Counterfactual
--     Ghost      `GhostOrder` and the checks of its constructor; Ghost/Sound restates them
--     Receipt    `ghost_order_from_receipt`; Preflight: `ghost_orders_from_preflight`
--     Snapshot   `CounterfactualRecord` and its accounting
--     Records    the state of `CounterfactualLedger`; Ledger: `record`, `refresh_receipt`,
--                `_validate_revision`, `_append`; Gap: `selection_gap`, `execution_ratio`
--   Paper
--     Lifecycle  `OrderLifecycle`: States has the transition table, Trace its calls as events,
--                Persist `as_record` and `from_record` on JSON values (Roundtrip proves)
--     Store      `LifecycleStore`
--     Order, Account, Risk
--                `PaperOrder`, `MarketBar`; `PaperAccount`, `reconcile_account`; `PaperRiskConfig`,
--                `PaperRiskGuard.assess` and `assess_batch`
--     Broker     `InMemoryPaperBroker` (Local) and `AlpacaPaperBroker` (Remote) behind one record
--     Window     `make_forward_commitment` and the commitment, preimage and reveal of a
--                forward window; Framing proves what the length framing is for
--     Session    `PaperTradingSession`: Reconcile has `_find_order`, `reconcile`, `reconcile_all` and
--                `refresh_execution`, Record the closure `record_execution`, Submit
--                `_submit_preflighted`; the children Avoids, Present, Absence, Crossing and Once
--                prove
--   Tests        a runtime over the natural numbers, and the theorems at concrete inputs
--
-- Conventions. A method is a function from the object's state to a result and the state after it; an
-- exception is a value with its class and message. A lifecycle object that several names share is
-- the entry of the store under its id. A clock reading is an argument, and in the session a counted
-- call of `clock`. A log file is the list of its lines (Python/Files), and how an append ends is a
-- parameter: it may raise and leave nothing, a part or all of the row in the file. The file of a
-- lifecycle store is the JSON value that its text stands for, and its write goes through.
--
-- Fuel. `resolve` follows a chain of replacements; it gets two rounds more than the table has
-- entries, and the source raises on a repeated id, so the fuel never runs out. The loop of
-- `_undo_xor_right` runs the rounds that the source counts, three at each shift of the finalizer.
--
-- Not modelled: the market data clients and the HTTP transport (I/O), `forward_reveal_intake` and
-- `verify_forward_evidence_window`, the head of `execute_decision` that computes keys and the
-- preflight, `reconcile_account_now`, the reading of the ledger's log, failing writes of the lifecycle
-- file; `_csv_dates`, the digests of a contract, `to_json`, `claims_from_json` and `summarize`; the
-- environments of curriculum.py; and every other module of the package. The random generator, the date
-- parsers, the functions of `math` and the text functions are parameters.
pub mod Prelude
pub mod Python
pub mod Splitmix
pub mod Curriculum
pub mod Seeds
pub mod Blocks
pub mod Forecast
pub mod Deferred
pub mod Counterfactual
pub mod Paper
pub mod Tests
