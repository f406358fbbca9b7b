-- ===== src/Lib.antt =====
-- Verification of Golite, a web framework in the manner of Laravel, written in Go.
--
-- The core of the program is its HTTP layer: sessions (app/Http/Session), the kernel with its
-- routes, middleware and request pipeline (app/Http/Kernel.go, app/Http/Context.go), and the
-- service container (container/container.go); beside it stand the validator (validation), the guard
-- with its middleware (auth) and the runner of the database's migrations (database/migrations). A
-- request enters Kernel.ServeHTTP, passes the global middleware, is routed by Kernel.dispatch,
-- passes the route's middleware, which are resolved from names, and reaches a handler. The session
-- middleware loads and saves a session around that; a blocked route does so once more, under a lock.
--
-- Session (app/Http/Session):
--   Session.Store      Session.go: the session object and each of its methods
--   Session.Flash, Session.Token, Session.Counter    theorems on flash data, the CSRF token, and
--     Increment and Decrement; Session.Ops is the list of the methods as data
--   Session.Payload    encode and decodeSession, with encoding/json as an argument
--   Session.Driver     SessionHandler.go, MemorySessionHandler.go and, in Session.Driver.File,
--     FileSessionHandler.go
--   Session.Manager    SessionManager.go: Load and Save, with CookieSessionHandler.go and its
--     cipher as arguments; Session.Manager.Registry is Extend, Driver and resolveHandler
--   Session.Visit      app/Http/Middleware/StartSessionMiddleware.go and the methods of
--     app/Http/Context.go that change the session's id, with the cookie header of the response
--   Session.Lock       Lock.go: the registry of mutexes and acquire, which polls
--   Session.Block      app/Http/SessionBlock.go: the middleware of a blocked route;
--     Session.Block.System are concurrent blocked requests as a step relation, with
--     Session.Block.Exclusion, Serial and Progress on it, and Session.Block.Handle on one request
--   Session.Csrf       app/Http/Middleware/VerifyCsrfToken.go as a program of the pipeline
-- Middleware (app/Http/Kernel.go): Middleware.Spec parses the names, Middleware.Expand replaces
--   groups by their members, Middleware.Priority sorts, Middleware.Resolve puts these together;
--   Middleware.Priority.Ordered and Middleware.Resolve.Complete say what comes out.
-- Routing (app/Http/Kernel.go): Routing.Uri joins URIs, Routing.Segments parses them,
--   Routing.Pattern compiles and matches them, Routing.Url generates URLs, Routing.Route is a
--   route with its fluent methods, Routing.Table the routes of a kernel with their lookup, and
--   Routing.Table.Groups the groups and the verbs.
-- Pipeline (app/Http/Context.go, app/Http/Kernel.go): Pipeline is Next with its index and its
--   growing list of handlers, Pipeline.Onion the nested pipeline, Pipeline.Programs and
--   Pipeline.Refinement compare the two for a handler and for the list, and Pipeline.Recovery is
--   the recovering middleware in front of all others.
-- Dispatch (app/Http/Kernel.go): Kernel.dispatch over the tables, which is the routing of Pipeline,
--   and the registration of middleware.
-- Validation (validation): Validation is the validator of validator.go, util.go and errors.go,
--   Validation.Rules are those rules of rules.go that parse no numbers, addresses or URLs,
--   Validation.Passing and Validation.Validated say when a validation passes and what it returns.
-- Resource (app/Http/Resource.go, app/Http/Controllers/Controller.go): Resource.Singular is
--   singularize, Resource.Controllers the tables of actions and a controller's middleware, and
--   Resource.Register the registrars, which add and remove the routes of Routing.Table.
-- Auth (auth, app/Http/Middleware/AuthMiddleware.go): the guard with its remember-me tokens and
--   password resets over tables of users and tokens, and the Auth middleware.
-- Actions (app/Http/Controllers/AuthController.go): the actions of the controller over that guard.
-- Migrations (database/migrations/runner.go, migration.go): Migrate and Rollback.
-- Input (app/Http/Input.go with TrimStrings and ConvertEmptyStringsToNull) is the input payload.
-- Guards (app/Http/Middleware): MethodSpoofing, Role, TrustHosts and TrustProxies.
-- Exceptions (app/Exceptions): Render and ShouldReport, and what Recover does with a panic's value.
-- Base holds the shared lists, texts, maps and sets; Value is Go's `any`. Base/Tests.antt holds
--   Boolean tests, and the other Tests modules runs at concrete inputs.
--
-- Names follow the source, in lower case with underscores: `age_flash` is ageFlash. A method that
-- changes an object returns the new object. A panic or an error is `none`. Go strings are lists of
-- bytes, maps are association lists, integers are 64-bit patterns in Session.Store. Where the Go
-- code calls a library (encoding/json, package regexp, AES-256-GCM, crypto/rand), the model takes
-- the result or the function as an argument; its laws are the records CodecLaws, CipherLaws, and
-- the hypothesis that "[^/]+" compiles to the expression of a run of bytes that are no slash.
--
-- In Auth the password hash, SHA-256, the cipher and the test whether a query succeeds are arguments,
-- in Migrations the queries that fail, in Session.Driver.File filepath.Join and the system calls that
-- fail, and in Guards net.SplitHostPort and the tests of addresses.
--
-- Four functions have fuel. expandMiddlewareNames has as much as there are groups, which is always
-- enough. Next has the number of its nested calls, and the theorems say how much is enough. acquire
-- polls at most as often as its interval fits into the timeout, and twice more; its clock is a
-- parameter that advances by the interval at least. The decimal digits of a user's id are at most
-- 20, which are enough for 64 bits.
--
-- Not modelled: the locks inside an object (a method of a locked object is one step; the two
-- critical sections of Token are kept apart), time but for the clocks of the memory driver, the lock
-- and the reset tokens, JSON, SQL and HTTP as formats, and the parts that are input and output or
-- calls of libraries: responses, uploads, injection by reflection, the ciphers and hashes, logging,
-- the schemas of the tables, configuration and the command line.
pub mod Base
pub mod Value
pub mod Session
pub mod Middleware
pub mod Routing
pub mod Pipeline
pub mod Dispatch
pub mod Validation
pub mod Migrations
pub mod Resource
pub mod Auth
pub mod Actions
pub mod Input
pub mod Exceptions
pub mod Guards
