-- ===== src/Lib.antt =====
-- A model of eiptnd, a server that takes messages of vehicle trackers and hands them on. It loads
-- plugins of two types. A translator reads the bytes of a connection and makes a property tree of
-- each message; a dispatcher delivers trees. The request router lies between them.
--
-- Which file models what (paths from the root of the repository):
-- - Wialon: the translator of plugins/translator_wialon/wialon_plugin.{hpp,cpp}. Wialon.Protocol has
--   its tables `estimates_` and `fields_`; Wialon.Machine the members of the object, `answer`,
--   `store_data`, `commit_command` and `handle_authenticate`; Wialon.Token `consume_token` and
--   `parse_string`; Wialon.Session `handle_start`, `handle_read`, `handle_write` and
--   `handle_process_data`. A call through `api_` is an entry of the list `calls`. `authenticates` of
--   Wialon.Machine says whether `api_->authenticate` calls its callback before it returns, as that of
--   the router does, or later; both are modelled. Wialon.Events runs the handlers in any order, as a
--   step relation.
-- - Redis: the connection of plugins/dispatcher_redis/redis_connection.{hpp,cpp}. Redis.Connection
--   has its queues and operations, Redis.Handlers its completion handlers, and Redis.Events runs
--   them in any order, as a step relation. What is started on the resolver, the socket and the timer,
--   and the calls of callers' callbacks, are entries of the list `ops`. Redis.Dispatcher is
--   dispatcher_redis.{hpp,cpp} beside it. Redis.Wire reads the bytes of requests as a server does,
--   Redis.Pairing follows the connection in its phases while nothing on the socket fails, and
--   Redis.Failure says what happens when something does.
-- - Json: the trees of include/dptree.hpp in Json.Values and their printer, include/dptree_json.hpp,
--   in Json.Writer; Json.Grammar describes the texts of JSON.
-- - Net: Net.Session is the connection of src/connection.{hpp,cpp} with the shared pointers that hold
--   it and its translator, as counters; Net.Server is src/tcp_server.{hpp,cpp} with the connections
--   that it accepted, whose operations complete in any order. The translator is a parameter, and
--   Net.Wialon puts that of Wialon messages in its place. Net.Draining lets what is under way fail.
-- - Core: src/core.{hpp,cpp}. Core.LogSettings converts the settings of the log; Core.Startup is
--   `load_settings` of src/plugin_factory.cpp, which loads the plugins and passes the settings on to
--   the manager and the router; Core.Service opens the servers, starts and stops.
-- - Router: src/request_router.{hpp,cpp}. Router.Routes has the maps, `load_settings`, `create` and
--   the route of a connection; Router.Process `process_data`; Router.Combiner the callback that
--   several dispatchers share; Router.Order forgets the order of their answers. The shared vectors
--   are a list, and a route holds an address in it.
-- - Report: a report from a connection through the router to the dispatchers and back, by the models
--   of the parts.
-- - Plugins: src/translator_manager.{hpp,cpp} in Plugins.Manager, with the choice of a translator by
--   `on_connection` of src/connection.cpp, and src/plugin_factory.{hpp,cpp} in Plugins.Factory.
-- - Log: the levels of include/log.hpp. Timer: the clock of include/relative_timer.hpp.
-- - Example: Example.Echo is the translator of example/translator_echo, another one for Net.Session;
--   Example.Logger is the dispatcher of example/dispatcher_logger, whose timers run on that clock.
-- - Main: `main` of src/main.cpp with its options, which starts the core of Core.Service.
-- - Boost: the parts of Boost that are called, as records of operations and of what their
--   documentation says of them: flat maps, property trees, stream buffers, numerals. The models take
--   them as parameters; Boost.Instances shows that they can be met. std::getline is a definition.
-- - Prelude: names and lemmas that all share. Tests: the theorems at concrete inputs.
--
-- What is not defined in C++, an assertion that fails and an exception that nothing catches are
-- faults of a result type: a null pointer, a member that was never assigned, an index or a reply that
-- is too long, the iterator before an empty line, the end iterator of a resolver, an empty queue, a
-- handler for a translator that was destroyed.
--
-- Bounds. Counters of type std::size_t wrap at 2 ^ 64; a length that karma::uint_ prints is below
-- 2 ^ 32. The counts of a duration and of a time are signed numbers of 64 bits; an operation whose
-- result does not fit gives no result. The loop of `handle_read` in the translator runs on fuel, one
-- round more than there are bytes in the buffer; each round but the last takes a byte. The loop of
-- `handle_read` in the Redis connection is bounded by the number of callbacks, as it is in the
-- program.
--
-- Not modelled: log records, but for the texts whose making may fail; threads: an operation is
-- one step. The strand of a connection makes it so for reads and writes, but the callbacks of
-- `process_data` are posted outside the strand; the mutex of the Redis connection makes it so for
-- `publish`, `ping` and the end of a read, but `handle_connect` and `drop` do not take it. There the
-- steps are those of a program whose service runs in one thread. Not modelled either: a callback that
-- itself calls `publish`; the listing of a directory, the reading of the file of settings, the parsing
-- of the command line, the launch of an application and the loading of a library, which are
-- parameters or left out; the settings of plugins other than the Redis dispatcher and the example,
-- of which only is kept whether the plugin takes them; the services of Windows; the copies of
-- Boost.Application under include.
pub mod Prelude
pub mod Boost
pub mod Log
pub mod Timer
pub mod Json
pub mod Plugins
pub mod Core
pub mod Net
pub mod Wialon
pub mod Redis
pub mod Router
pub mod Report
pub mod Example
pub mod Main
pub mod Tests
