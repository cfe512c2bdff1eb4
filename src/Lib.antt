-- ===== src/Lib.antt =====
-- A model of the Swaptacular "Debtors Agent" (the Python package swpt_debtors), with the theorems
-- that make its transactions correct. The agent keeps a row for each debtor, an issuer of currency,
-- and a row for each issuing transfer that the debtor has initiated. It talks to an accounting
-- authority by messages: it announces the configuration of the debtor's account and asks for
-- prepared transfers, and it receives account updates, prepared, rejected and finalized transfers.
-- A scanner removes abandoned debtors and reports configuration problems.
--
-- The files:
-- - Prelude: tests, integers, laws of bit masks, tables as lists of rows.
-- - Platform: floats, sequence numbers and JSON, which the program takes from elsewhere, as
--   parameters; the laws that some theorems need are the record `IsStandard`.
-- - Models: swpt_debtors/models.py. A signed column is an integer, a column with a CHECK that it is
--   not negative is a natural number, a timestamp is a number of microseconds.
-- - Store: the statements sent to the tables, with their laws.
-- - Settings: the configuration, and `is_valid_debtor_id`.
-- - Procedures: swpt_debtors/procedures.py. A procedure is a function from the database to a result
--   and a database, or to an exception. The names are those of the source without a leading
--   underscore; a private function of the source that changes an object returns the new object,
--   which the procedure writes back at its end, as the session does. `datetime.now` takes the next
--   reading of a clock of which nothing is assumed.
-- - Actors: swpt_debtors/actors.py. Scanner: swpt_debtors/table_scanners.py.
-- - Schemas: swpt_debtors/schemas.py, with the two functions of times of swpt_debtors/routes.py: what
--   the schemas of the requests accept, as functions to Option, and what those of the answers render,
--   as records. The URLs and the conversions of swpt_pythonlib are the parameters of Schemas.Links.
-- - Outgoing: the schemas of the signals and Signal._create_message of swpt_debtors/models.py.
-- - Setup: swpt_debtors/__init__.py: _parse_debtor_id and the patterns of the users; the class
--   Configuration with its default values, and MetaEnvReader, by which the environment overrides
--   them (Setup.Environment, Setup.Configuration); the loggers (Setup.Logging).
-- - Shard: verify_shard_content of swpt_debtors/cli.py. Commands: its other commands. A command gives
--   the list of its requests to RabbitMQ, or the arguments of the workers that it starts;
--   Commands.Flushing is the loop of a worker that flushes messages.
-- - System: the transactions in any order.
-- - Web: the users, the permissions and the endpoints of swpt_debtors/routes.py. Their arguments are
--   those that the schemas have accepted; the headers of the answers are left out. Web.Served,
--   Web.Handled and Web.Listing put permissions, schemas and endpoints together: Web.Served for the
--   requests about transfers, Web.Listing for the list of debtors and a client that follows its
--   links, Web.Handled for the others, with a type of all the requests that change the database.
-- - Invariants: what every procedure leaves in the tables of debtors and transfers, and what follows
--   for the runs of the system; the CHECK constraints (Checked, CheckedTransfers, MeetsChecks)
--   and the messages that announce configurations (from Announcements to AnnouncedRuns) have their
--   own files there.
-- - Lifecycle: the life of a transfer as an abstract machine that the transactions refine, and what
--   it promises in all runs; Lifecycle.Exchange and Lifecycle.Configured go through whole exchanges of
--   messages.
-- - Behaviour: what each procedure does. Tests: the theorems at concrete inputs.
--
-- Transactions are taken one after another: locks are not modelled, nor are retries after a conflict
-- of two transactions. An exception rolls its transaction back, so it leaves the database as it was.
-- db.session.add adds a row to the session: the procedures return, and the INSERT comes with the flush
-- that ends the transaction. Procedures.Flush models that flush for ConfigureAccountSignal: a primary
-- key that is taken raises IntegrityError and rolls the transaction back. The result of a procedure by
-- itself, and of a request of the Web API, is that of a transaction whose flush succeeds; a run of
-- System may put any transaction under a flush. The tables of outgoing signals keep every row, as a
-- history; what the workers send and delete belongs to swpt_pythonlib, so that the rows that are still
-- in a table are an argument of the flush. The width of integer columns is not modelled: the values are not checked
-- against 2 ^ 31 or 2 ^ 63. Fuel: the decimal text of an identifier takes one more than the number;
-- Behaviour.Enumeration and Web.Listing give a client that follows the pages a number of pages, of
-- which one more than there are debtors is enough; the loop of delete_queue has a number of rounds, of
-- which one more than there are answers before the last is enough; the loop of a worker that flushes
-- messages has no end of its own, and Commands.Periods speaks of every number of rounds;
-- _remove_handlers has as many rounds as there are handlers. Not modelled: the parsing of JSON and the
-- formats of times, which belong to marshmallow; the calls of create_app that register blueprints and
-- extensions, the hooks for signals and uncaught exceptions, and the start of SmpConsumer in a worker,
-- which only call libraries; the OpenAPI texts; the migrations.
pub mod Prelude
pub mod Platform
pub mod Models
pub mod Store
pub mod Settings
pub mod Procedures
pub mod Actors
pub mod Scanner
pub mod Outgoing
pub mod Setup
pub mod Shard
pub mod Commands
pub mod System
pub mod Schemas
pub mod Web
pub mod Behaviour
pub mod Invariants
pub mod Lifecycle
pub mod Tests
