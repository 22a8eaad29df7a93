-- ===== src/Lib.antt =====
-- RollPig Cloud: the coordination of roasts between several chat bots.
--
-- The server keeps one database. Bots send requests, each of which is one transaction, and the rules
-- that have to hold whichever bot asks and however often it retries are kept in the services. The
-- parts that are modelled, and how they work together:
--
-- - Charges: a roast costs a charge that recovers with time, and a force chance once a day.
-- - Protections: a user is protected at a level that grows with the roasts that succeed.
-- - Growth: a roll gives a copy of a pig, and a feed once a day raises its level.
-- - Rolls: the first request of a user for a day fixes the user's pig and lets the roasts that wait for
--   it start.
-- - Reservations: a roast of a user waits for the user's roll; others join it, and a protected user
--   is roasted only with enough fire. Creating one spends a charge or the force chance.
-- - Delivery: a bot claims a reservation that is ready, fixes the outcome, sends the message and
--   completes it. A claim that is abandoned is taken over by another one.
-- - Events: what a roast did to whom, recorded under the identity of its reservation.
-- - Messages: a reply to the message of a reservation joins it.
-- - Refills: a vote of a group's active members fills their charges.
-- - Reports: each evening one bot sends a group's daily report. It claims the report, sends it, and
--   confirms it; a rejected report is claimed again after a delay, until the deadline.
-- - Keys: each bot has a key, and its requests are counted by key, day and operation.
-- - Reading: the pigs that a group has seen, a user's growth and collection, and the catalog.
--
-- Which file models what:
--
-- - Base: Boolean tests, tables as lists of rows with the queries of the code (`find` for a look-up,
--   `select` for WHERE, `update` for UPDATE), numbers of requests, sorted sets of identifiers.
-- - Store: rollpig_cloud/models.py, the rows and the `Session` that holds the tables. A request is a
--   function from a session to an answer and a session.
-- - Usage: rollpig_cloud/services/usage.py. `consume_charge` is the part of `consume_roast_usage` for
--   a row that exists and `first_charge` the part for a new one.
-- - Protection: the levels of rollpig_cloud/services/protections.py. Granting: its
--   `sync_pending_protection`, and rollpig_cloud/routers/protections.py, with
--   `replace_group` in Granting/Replace.
-- - Progress: `apply_created_roll_progress` and `apply_daily_feed` of
--   rollpig_cloud/services/progress.py; `grow` is the end of the latter. Progress/Answers has
--   `build_lookup_response`, split into `historic_response` and `current_response`, and
--   `build_draw_state_response`.
-- - Activity, Refills: rollpig_cloud/services/roast_refills.py, with `complete_refill` in
--   Refills/Complete. Refills/Routes: rollpig_cloud/routers/roast_refills.py.
-- - Reservation: rollpig_cloud/services/reservations.py. Reservation/Join is the branch of
--   `prepare_reservation` for a reservation that exists, Reservation/Create the branch that creates
--   one, and Reservation/Reconcile the reconciliation with the target's roll and POST /prepare.
-- - Delivery: rollpig_cloud/routers/roast_reservations.py. Functions named `…_row` are what a handler
--   does to the row that it has locked, and the children have the handlers: Claim, Waiting (the notice
--   that a roast waits for fire), Settle (the outcome) and Finish. Delivery/Lifecycle is the state
--   machine as a relation on rows, Delivery/Served a sequence of requests, and Delivery/Phases the
--   contract, told without the handlers.
-- - Messages: `bind_message`, `join_by_message` and `record_unrolled_attempt` of the same router.
-- - Events: rollpig_cloud/services/events.py and POST /events of rollpig_cloud/routers/events.py.
-- - Rolls: rollpig_cloud/routers/daily_rolls.py. `add_roll` is the new row with its growth, and `arrive`
--   what follows it in the group; Rolls/Answered adds the answers and the routes that only read.
-- - Stats: rollpig_cloud/services/roast_statistics.py.
-- - Reports: rollpig_cloud/routers/daily_reports.py. Reports/Claim is `_claim_once`, a round of whose
--   loop is `visit`; Reports/Next is `_next_claim_at`, Reports/Transition `transition_daily_report`,
--   and Reports/Profiles `get_daily_report_profiles`. `visit` and `transition_row` take the row that
--   the transaction has read and the row of the table at the time of its UPDATE.
--   Reports/Lifecycle is the life of a report as a relation, and Reports/Served a sequence of requests.
-- - KeyUsage: rollpig_cloud/services/key_usage.py.
-- - Keys: `parse_api_keys` of rollpig_cloud/config.py and `verify_token` of rollpig_cloud/auth.py.
-- - Groups: rollpig_cloud/routers/group_rolls.py and groups.py. Catalog: rollpig_cloud/routers/catalog.py,
--   collections.py and GET /events of events.py.
-- - Backfill: tools/backfill_p1a_progress.py. LegacyImport: tools/import_legacy_json.py, the import of
--   the rolls and the collections, with its pending rows apart from the stored ones.
-- - Tests: examples, each theorem at a concrete input.
--
-- How the program is read:
--
-- - Identifiers, names and texts are numbers and 0 is the empty text, except in Keys, where texts are
--   lists of code points; a date is a day number and a time a number of seconds. A column that
--   may be NULL is an `Option`. JSON columns with fixed keys are records, in which a missing key has the default that every reader gives it.
-- - Numbers that a client sends and the server clamps are integers, `ℤ` of Base. Stored counts,
--   charges and stamps are natural numbers, as every writer keeps them.
-- - The column `id` is the position of a row. Columns with the time at which a row was made are left
--   out, but in the tables of Reports/Profiles, whose rows are `Stamped`.
-- - The functions stop by recursion on lists. The only bound is the source's own, the three attempts of
--   the route that prepares a refill.
-- - Row locks and retries serialise the transactions that share a row, so each is one step. The order
--   of the steps is any order: it is the list of requests in Delivery/Served, Reports/Served and
--   Refills/Routes.
--   For reports, where SQLite ignores the row locks, the older row that a transaction may have read is
--   an argument. A unique key that a transaction violates is `none`, with which the transaction is
--   rolled back; this is written out in Reservation/Create, Refills/Routes and LegacyImport.
-- - New ids and tokens, the clock and the day are arguments.
--
-- Not modelled: rollpig_cloud/main.py, db.py and migrations.py (set-up, connections, the middleware that
-- calls `record_key_request`, and schema changes), the other settings of config.py, the validators and
-- serialisers of schemas.py, the cut-off times of the lists of events, group rolls and active users, the
-- counts of key usage inside the other routes' transactions, the import of usage, events and
-- protections in tools/import_legacy_json.py, and tools/migrate_roast_charges.py, which calls the
-- set-up. Identifiers are no longer than their columns, so the cuts `[:64]`, `[:192]` and the like are
-- left out. `json.loads` and the digest of a token are not modelled either: Keys takes their results.
pub mod Base
pub mod Usage
pub mod Protection
pub mod Store
pub mod Progress
pub mod Activity
pub mod Reservation
pub mod Events
pub mod Delivery
pub mod Granting
pub mod Messages
pub mod Refills
pub mod Rolls
pub mod Stats
pub mod Reports
pub mod KeyUsage
pub mod Groups
pub mod Catalog
pub mod Keys
pub mod Backfill
pub mod LegacyImport
mod Tests
