-- ===== src/Lib.antt =====
-- Verification of the order-safety core of the trading programs: the durable order outbox and its worker, the
-- lifecycle of a single order, the cooldown gate in front of every order, the pipeline of guards that places an
-- order, the exchange filters of Binance, and two strategies on top of them, the trailing stop and the rounds of
-- two quotes.
--
-- A trading program asks the gate (lock/trade_cooldown.py on lock/cooldown.py) for a reservation of a symbol
-- before it places an order. An order that cannot be placed or confirmed goes into the outbox
-- (order_retry.py), a file of JSON lines under one file lock, from which a worker claims records under a
-- lease, submits them and completes the lease with an outcome. A strategy that owns one order keeps its
-- intent through `TrackedOrderLifecycle` (order_retry.py), which persists it by a callback of the strategy
-- around every call of the venue. The answers of a venue come as the `SubmissionOutcome` and `OrderStatus`
-- of providers/strategy_executor.py.
--
-- `Instrument.place` (instrument.py) is the way of every order to a venue. It runs the guards of order_guard.py
-- and the decision on the quantity (providers/quantity.py), takes the slot of the cooldown, stores the intent in
-- the outbox under a lease of its own, checks the price and the switch of the execution once more, marks the
-- record as possibly submitted, sends the order, and completes the lease with what came of it.
--
-- Two strategies are state machines over a venue. The trailing stop (trailing_core.py) sells an asset that has
-- fallen from its peak and buys it back after a bounce; its adapter sends the orders through
-- `TrackedOrderLifecycle`. The coordinator of a round (strategies/rtrade_pair.py) sends a purchase and a sale,
-- and closes what one of them has filled by a limit order or, at a loss, by a market order.
--
-- Base          Boolean tests on native numbers, lists filtered by tests, Option as a monad, dictionaries, code
--               that changes a state and may raise, rounding.
-- Outbox        order_retry.py.
--   Types       the records, the configuration, `_client_order_id`
--   Guards      `is_possibly_submitted`, `valid_record`, `_safe_to_evict_for_capacity` and their kin
--   Due         `is_expired`, `is_due`, `price_gate_ok`
--   File        `_read_nolock`, `_write_nolock`; `transact` is the `with FileLock` block of every operation
--   Request, Capacity, Enqueue
--               `enqueue` before the lock, its capacity bound, and the whole of it; `enqueue_claimed`
--   Response    `extract_order_id`, `_append_order_history`, `_apply_accepted`
--   Claim       `claim`, `begin_claimed_submit`, `get`, `mark_failure`, `mark_accepted`
--   Complete    `complete_claim` with its outcomes
--   Status      `advance_claimed_status`
--   Cleanup     `consolidate_deferred_streams`, `activate_claimed_replacement`, `discard_expired`, `discard`,
--               `resolve`, `resolve_record`
--   Exclusion, Dispatch, Delivery, Ownership, Replacement, Survival, Eviction, Room, Intake, Durability,
--   PriceGate   proofs; Samples and Tests hold concrete queues
-- Worker        order_retry_worker.py: one pass over the outbox, `process_once`.
--   Effects     what a pass acts on: the queue, the log of the calls of the market, the statistics
--   Reconcile   `_submission_requires_reconciliation`, `_reconcile_client_order`, `_not_found_is_reliable`
--   Scan        the first loop of `process_once`
--   Replacement, Observe, Submit
--               the three cases of its last loop: waiting, accepted and pending records
--   Pass        the loop over live producers and the whole of `process_once`
--   Safety, Placement, Justified, Agreement, Returns, Total
--               proofs
-- Lifecycle     `TrackedOrderLifecycle` of order_retry.py.
--   Effects     the intent, the log of effects, `_validate_identity`
--   Submit      `capture_submission` (providers/strategy_executor.py), `_order_fields`, `submit`
--   Reconcile   `reconcile`, `_persist_terminal`, `_now`
--   Ledger, Settlement, Reconciled
--               proofs
-- Cooldown      lock/cooldown.py and lock/trade_cooldown.py.
--   Gate        `reserve`, `release`, `update`, `slot`
--   Group       `reserve_group_member`, `commit_group_member`, `rollback_group_member`,
--               `release_group_member`, `group_slot`
--   Trade       `reserve_trade`, `trade_slot` and the calls by symbol
--   Exclusion, Pair
--               proofs
-- Filters       providers/binance_filters.py, through which every Binance order passes before it is sent.
--   Rules       `_decimal`, `BinanceOrderRules` and its parser, `binance_filter_refusal_reason`
--   Normalize   `_floor_step`, `normalize`
--   Steps, Admitted, Market
--               proofs
--
-- Trailing      trailing_core.py.
--   Types       the entry of an asset, the adapter, the log of its calls and of the saves
--   Rules       `should_sell` and the other tests and roundings on numbers
--   Pending     `_finish_pending`, `_reconcile_pending`, `_rebuy_for`
--   Rebuy       `_handle_rebuy`
--   Process     `_process`, `check_once`
--   Orders, Sent, Visited, Ticks, Fills
--               proofs
-- RtradePair    strategies/rtrade_pair.py.
--   Types       the tickets, snapshots, policy and state of `PairCoordinator`, its venue, the log of its calls
--   Prices      `quote_prices`, `anchored_exit_price`
--   Orders      `_side_totals`, `_record_first_fill`, `_compact_zero_fill_history`, `_refresh`, `_cancel`,
--               `_cancel_and_reconcile`
--   Recovery    `_recover_persisted_intents`
--   Start       `start`, `_place_failure_reason`
--   Exit        `_ensure_anchored_exit`
--   Stop        `_submit_hard_stop`, `_retry_terminal_hard_stop`
--   Step        `step`, `_cancel_entry_remainder`
--   Checkpoint  `export_state`, `from_state`
--   Rounds      any sequence of starts and steps of one coordinator; proofs
--   Ledger, Quiet, Closing, Stopped, Retried, Settled, Traded, Stepped, Opened, Target, Restored
--               proofs
-- RtradeStore   rtrade_pair_store.py, the file of the rounds and of the intents of their orders.
--   Types       the records as they stand in the file
--   Validate    `_validate`, `_validate_intent`, `_finite_positive`
--   Store       `_read`, `_write`, `mutate`, `_prune_terminal` and every operation of `RTradePairStore`
--   Unfinished, Intents, Refined, Checked, Returned
--               proofs
--
-- Placing       instrument.py, order_guard.py, providers/quantity.py and accepted_order_persistence.py; it acts
--               on the queue of Outbox and the state of Cooldown.
--   Types       what a call gives: a value, a refusal or another exception; the texts of the refusals
--   Guard       `profit_guard` (with `value_diff_to_percent` of utils.py), `window_reference`,
--               `daily_limit_guard`, `weight_limit`
--   Quantity    `decide_quantity`, `balance_cap_quantity`, `fee_cap_quantity`
--   Setting     the arguments of `place`, the answers to its calls, `_accepted_order_payload`,
--               `_order_id_from_payload`
--   Checks      the guards of `place`, in their order
--   Slot        the block of `trade_slot`: the stored intent, the last checks, the dispatch
--   Tracking    `complete_accepted_claim`, `_accepted_is_durable` (accepted_order_persistence.py)
--   Final       the `finally` block
--   Place       `place`
--   Bounds, Window, Bounded, Decided, Weighted, Guarded, Recorded, Slotted, Dispatched, Sending,
--   Spacing, Retained, Tracked, Keeping
--               proofs
--
-- How the model reads the source. A text is only compared, so it stands as a number, and 0 is what Python takes
-- for false (the empty text, a missing key read by `or`). Times are ticks, quantities units of 10^-12, the price
-- tolerance parts of a million; there are no floating-point numbers, so rounding is not modelled. The decimals
-- of the filters are exact, as long as a quotient has at most the 28 digits that Decimal keeps. Enumerated texts
-- are in their canonical spelling. A number argument that float() or int() refuses, that is not finite or is
-- negative is one value, `malformed`. A line of the queue file is what json.loads makes of it: a record, or
-- `garbage` where it cannot be decoded to an object. The file lock serialises the operations, so each is one
-- step on the queue or the state. The two identifiers of uuid, the process and its table are a parameter
-- (`Host`). The venue, the persistence callback and the clock of the lifecycle are parameters too, functions of
-- the log of all that has happened. The market of the worker is a parameter (`Setting`) of the same form, and so
-- is what other processes make of the queue before each of its transactions; the queue of the worker holds no
-- undecodable line, and its resolver of provider names raises nothing. The adapter of the trailing stop and the
-- venue of a round are parameters in the same way, and may raise at every call; the reports of exceptions and
-- the save may raise too. A call of the adapter that takes the callback `persist` is a script of stores, each
-- going on by whether the store succeeded. A number that the coordinator has computed since the last answer of
-- the venue is read again from the state, which has not changed; where it may have changed, the number is passed
-- on as in the source. The texts of a reason or a phase are constructors; a text of the venue's own is none of
-- them. The object that `stop_ticket` names is marked in the list of tickets. In the store of rounds the text of
-- a kind and a side is a parameter, a function of both; whether a file can be written is a function of what is
-- written; a key that is missing and a key with null are one value where the store does not tell them apart.
-- `place` calls each function of its provider, the trend and the clock at most once at a place of the code, so
-- their answers are the fields of one record, any of which may be an exception; what other processes make of the
-- queue and of the cooldown state during the call are functions in that record. A call that `place` hands over
-- to a provider with guards of its own counts as an order that is sent, without a record of the queue. Its
-- prices are numbers of 10^-8, its margins and weights parts of a million, and its quotients of quantities are
-- rounded down to a unit. Every loop of the source runs over a list, so the definitions are by structural
-- recursion; only the call of `step` by itself takes a depth, past which the interpreter raises, and the
-- theorems on steps hold at every depth.
--
-- Not modelled: printing and the audit payloads, the JSON text of a record (json.loads and json.dumps), the
-- loading of the configuration, the atomic replacement of the file on disk (a write either happens or raises),
-- the reading of /proc for the start identity of a process, the alerts and the main loop of the worker, the log
-- lines of the trailing stop, the numbers that the outcome of a coordinator derives from the totals, the logs
-- and the audit of `place`, the alert about an acceptance that could not be written, and the programs that call
-- these parts: the other strategies, the price analysis, the caches and the venue adapters.
pub mod Base
pub mod Outbox
pub mod Cooldown
pub mod Worker
pub mod Lifecycle
pub mod Filters
pub mod Trailing
pub mod RtradePair
pub mod RtradeStore
pub mod Placing
