-- ===== src/Lib.antt =====
-- A verification library for the onsale booking path: seat holds, general admission, checkout, the
-- workers behind them, the waiting room in front of them, and the catalog that they sell from.
--
-- The parts, and how they interact. A buyer waits in the waiting room until a tick lets him in with a
-- token; each route of the inventory and of the checkout asks for the token first. He then holds seats
-- (locks in Redis, rows in the database) or reserves general-admission tickets (an optimistic update of a
-- pool), and checks out: an order is written, the card is charged, and the finalizer confirms what the
-- reservation keeps or the charge is refunded. The worker gives back what unpaid reservations keep, hands
-- the events of the outbox to the notifier, and runs the tick. Anybody may look at the matches and at the
-- seat map, which is kept in a cache until its time has passed. The waiting room runs over a store, which
-- is kept in memory or in Redis.
--
-- Which file models what:
--   Tables        the rows of src/arena_onsale/{catalog,inventory,checkout}/models.py with the indexes of
--                 alembic/versions, and the database as one list of rows for each table
--   Settings      src/arena_onsale/shared/settings.py
--   Inventory     src/arena_onsale/inventory: GaStock (ga_stock.py), GaService (ga_service.py, retry.py),
--                 Locking (locking.py), Holds (service.py)
--   Checkout      src/arena_onsale/checkout: Orders, Quotes and Service (service.py), Finalizer
--                 (finalizer.py), Psp (psp.py), Expiry (expiry.py), Outbox (outbox.py)
--   WaitingRoom   src/arena_onsale/waiting_room: Store (the protocol of store.py), Memory (memory.py), Redis
--                 (redis_store.py, keys.py), Rate (the rate limit of redis_store.py with other clients
--                 between its commands), Service (service.py, and keys.py for the rate)
--   Admission     src/arena_onsale/api/admission.py
--   Api           the routers, schemas and the statuses they answer with: Schemas (the schemas.py files and
--                 ga_schemas.py), Refusals (the refusal at the door), Catalog, Holds, Ga, Checkout and
--                 WaitingRoom (a router each)
--   Sale          the transactions of Inventory and Checkout as the steps of a history
--   Worker        src/arena_onsale/worker.py, its passes and its loop
--   Catalog       src/arena_onsale/catalog: Layout (layout.py), MapView (map_view.py), Seed (seed.py with
--                 the statements of repository.py that it sends), Service (service.py and the other
--                 statements of repository.py)
--   Load          src/arena_onsale/load/flood.py, on the room of WaitingRoom.Redis
--   Prelude       shared names, lists, rows and statements, sorting, texts, numerals
--   Tests         runs of the code and of the theorems at concrete inputs
-- A module below one of these files holds the theorems on it. A function carries the name of the source's.
--
-- How the code is read. A function of the source takes the state and returns it: the database, the locks,
-- the provider, the store. Errors are values. A commit ends a step on the database; a rollback forgets the
-- uncommitted writes. What other transactions commit between two statements of a call is an argument
-- (`between`, and the fields of Surroundings, Environment and Around), and so is the set of rows that
-- SKIP LOCKED passes over. The clock, fresh ids, tokens and the random delay are arguments too.
-- UUIDs are numbers; session ids, keys, visitors and tokens are texts; times are microseconds, delays
-- milliseconds; the scores and the money are whole numbers. The keys and references of the payment
-- provider are data whose parts the source writes into a text. Each read of a row is a read of the
-- database: the identity map of the session is not modelled. Whether a rollback expires the loaded rows,
-- so that the next read of one raises, is a field of Environment (`rows_expire`): it does in SQLAlchemy's
-- AsyncSession, which the program runs on, and does not in the session of its tests. A locked row is not
-- written by others, which is a hypothesis where a theorem needs it (Locked), and so are the unique
-- indexes (UniqueSeats, UniqueOrders, UniqueEvents, GaBooks). The constraints of the first migration are
-- a predicate (CatalogFits in Tables.Constraints); the foreign keys of the tables are left out. A request
-- is admitted or refused first, then checked by its schema, then handled, the order in which FastAPI
-- resolves a route. The order of texts in the database is a parameter where a query sorts by one. A time
-- to live in Redis is a second at least. The clock of Redis is an argument of `redis_store`: a key is
-- there until that clock reaches its end.
--
-- Bounds. The retries of a reservation run on the number of attempts of the settings. The label of a row
-- and the digits of a number run on fuel, the number itself, which halves at least with each digit; the
-- batches of the load tool run on fuel, the count, since a batch has at least one element.
--
-- Not modelled: the wiring of the application, its dependencies and clients, health and metrics, logging,
-- the command lines, the script of the load personas, and the parsing of JSON and UUIDs before a schema is
-- checked, which is the framework's.
pub mod Prelude
pub mod Tables
pub mod Settings
pub mod Inventory
pub mod Checkout
pub mod WaitingRoom
pub mod Catalog
pub mod Worker
pub mod Load
pub mod Sale
pub mod Admission
pub mod Api
pub mod Tests
