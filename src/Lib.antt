-- ===== src/Lib.antt =====
-- The API of Brasil Lens: a FastAPI service over PostgreSQL that serves maps, weather and accounts.
-- This library models its core logic: what keeps state, what decides, and what may fail.
--
-- Cache: app/core/cache.py, `TTLCache`. `Cache.get` and `Cache.set` are its methods, on a record of
--   its fields; the clock is an argument, in microseconds, a second being 1_000_000. `OrderedDict` is
--   an association list, oldest entry first (Common.Dict).
-- RateLimit: app/core/auth.py, the counters of sign-in attempts in a cache: `check_auth_attempt`,
--   `record_auth_failure`, `clear_auth_attempts`. sha256 is a parameter, and a key is a value of a
--   data type where the code has a text with a prefix.
-- Password: app/core/auth.py, `hash_password` and `verify_password`. Texts are lists of codes; scrypt
--   is a parameter, assumed to give bytes where a theorem needs it.
-- Accounts: app/services/auth.py over app/repositories/users.py, with the write session of
--   app/api/deps.py. Tables are lists; a service takes the tables and counters and returns those
--   that it leaves with its result, and `write_session` rolls the tables back after an error.
-- Notifications: app/services/notifications.py over app/repositories/notifications.py. `round` is a
--   turn of the loop of `dispatch`, a transaction of its own; `rounds` is the loop, by recursion on
--   the limit of the batch, as the code's `range`. The answer of the push service, the clocks and
--   the lock are read from a `Round`. Notifications.Dispatch has the queries and the queue.
-- Followed: app/services/followed_municipalities.py over its repository; the rows of territories are
--   an argument.
-- Forecast: app/core/cooldown.py and, of app/services/weather_forecast.py, freshness, the store of
--   readings, and a fetch with its cooldowns. Numbers of degrees and millimetres are not kept.
-- Elections: app/providers/tse.py, `ElectionStage` and the live results. Texts are lists of codes; a
--   table of SQLite is a list of rows under their primary keys; `int` is read on latin-1, and
--   `strptime` is a parameter. The limit of a batch, 20000, is a parameter too:
--   Elections.Batches is about the tables of numbers; a candidate's office and scope may depend on it,
--   since `save_candidates` keeps those of the row that is there, and a batch those it read last. The
--   digits that `str` writes are cut on fuel, one more than the number, which Elections.Digits shows to
--   be enough.
-- Hydrography: app/services/hydrography.py. Floating-point numbers are a parameter with their operations,
--   of which nothing is assumed. Joining runs on fuel, as much as there are pieces, and simplification
--   on twice as much as there are points, which Hydrography.Chains and Hydrography.Simplified show to
--   be enough. What the source and the shared cache answer is an argument of `get_hydrography`.
-- Transport: app/services/transport.py over its repository, and MapProjection: app/services/map.py over
--   app/repositories/map_projection.py. The answers of the database are a record of functions, a geometry
--   is a text, and a response is kept before it is written as JSON.
-- Deforestation: app/services/deforestation_alerts.py. The alerts of the source and `normalize` are given.
-- JobRuns: app/jobs/_runner.py. A job is what it left: its report, its data, and how it ended; whether
--   the database saves its report is an argument.
-- Errors: app/core/errors.py, the errors as a data type, and the result of a function that may raise.
--
-- How they meet: RateLimit and Forecast keep their state in a Cache, and rest on what Cache.Room says
-- of one with room to spare (`IsReady`, `peek`); Accounts calls RateLimit and Password. Tests runs the
-- code at concrete inputs.
--
-- Instants are natural numbers, and a comparison of a difference is written as one of sums, so that
-- nothing is cut off at 0. Coroutines are run one at a time: what a request does between its waits is
-- a step, and rounds of different dispatches may follow one another in any order.
--
-- Not modelled: the HTTP layer and its schemas, SQL beyond the queries named, imports and
-- migrations, the text of a push message, the export of personal data; of the forecast, tasks in
-- flight and the averages of states; of the elections, downloads and archives, and the services that
-- read the results back; fires, socioeconomic indicators and the interpolation of fields. Redis,
-- scrypt, sha256, PostGIS, the push service and the weather source are outside the program, and are
-- parameters or arguments.
pub mod Accounts
pub mod Cache
pub mod Common
pub mod Deforestation
pub mod Elections
pub mod Errors
pub mod Followed
pub mod Forecast
pub mod Hydrography
pub mod JobRuns
pub mod MapProjection
pub mod Notifications
pub mod Password
pub mod RateLimit
pub mod Tests
pub mod Transport
