-- ===== src/Lib.antt =====
-- A model of the authentication service go-cloud-k8s-auth (its Go packages pkg/auth and pkg/rbac, the
-- server program that mounts them, and the example client), and theorems about it.
--
-- The program: users log in with Google, GitHub or Microsoft (oauth_providers.go), either through the
-- Connect procedures (auth_connect_server.go) or with a browser that keeps a session cookie
-- (browser_handlers.go). The authentication service (auth_service.go) checks the OAuth state against the
-- in-memory state store (state_store.go), fetches the profile, upserts the user (storage_postgres.go,
-- sql.go) and issues a JWT. The interceptor (auth_interceptor.go) puts the user of a JWT into the context,
-- from which the user and token servers (user_connect_server.go, pat_connect_server.go) take the caller;
-- their services (user_service.go, pat_service.go) work over the storage interfaces, which PostgreSQL
-- implements. The program (cmd/goCloudAuthServer) reads its environment, goes through the stages of its
-- start-up and registers routes; a request reaches a browser handler, or through the transcoder one of the
-- fifteen procedures of the generated handlers (gen/auth/v1/authv1connect), each behind the interceptor.
--
-- The files, under their source in pkg/auth unless named otherwise:
--   Domain             domain.go, rules.go and the rows of session_store.go and pat_store.go
--   Prelude/Error      errors.go, and Go's error values
--   Platform           what the program calls and does not implement
--   Rbac               pkg/rbac/simple_enforcer.go
--   StateStore         state_store.go
--   Storage            storage.go and the interfaces of session_store.go and pat_store.go
--   Storage/Db         cmd/goCloudAuthServer/db/migrations: the tables and their constraints
--   Storage/UserRows   sql.go: the expressions on rows of `users`
--   Storage/Users      storage_postgres.go and sql.go (`PGX`)
--   Storage/Sessions   session_store.go (`PgxSessionStore`)
--   Storage/Pats       pat_store.go (`PgxPatStore`)
--   Mappers            mappers.go
--   UserService        user_service.go
--   PatService         pat_service.go
--   OauthProviders     oauth_providers.go
--   AuthService        auth_service.go
--   Connect            auth_interceptor.go, and what the servers share
--   Connect/Users      user_connect_server.go
--   Connect/Auth       auth_connect_server.go
--   Connect/Pats       pat_connect_server.go
--   Browser            browser_handlers.go: configuration, redirect check and cookies
--   Browser/Handlers   its handlers
--   Server             gen/auth/v1/authv1connect/auth.connect.go: the procedures, and what `main` wires
--   Server/Services    its two HTTP handlers
--   Server/Routes      the routes of cmd/goCloudAuthServer/goCloudAuthServer.go and of browser_handlers.go
--   Server/Runs        runs of the server: requests in any order, and ticks of the state store
--   Server/Stores      what the tables of PostgreSQL keep in such a run
--   Program            cmd/goCloudAuthServer/goCloudAuthServer.go: constants and environment
--   Program/Login      its form login and probes
--   Program/Startup    its `main`, and the constructors that check a connection
--   Client             cmd/exampleClient/main.go
--   Fixtures           a concrete platform and database for the tests
-- A module below one of these holds proofs, named for what they prove, or tests and witnesses. The modules
-- named Keeps say which operations keep a predicate on the state, one level after the other: storages
-- (Storage/Keeps is the interface), services, servers and pages, the server.
--
-- How the code is read. A method on shared state is a function from the state to a result and the next
-- state (`Action`, `Handler`, `Page`); what was written before an error stays written. Names are those of the
-- Go code in antt's spelling: `AuthenticateOAuthUser` is `authenticate_oauth_user`. A long Go function is cut
-- at a call or a guard into a chain of smaller ones. Services are functions of a storage interface, a
-- record of operations on any state; the PostgreSQL storages are instances of it on the tables of `Db`.
--   - Strings are lists of bytes, a pointer that may be nil is an `Option`, and so are roles, which are nil in
--     Go and NULL in the table, or a list. Times are nanoseconds; of the ends that Go writes into sessions
--     and tokens the table keeps microseconds.
--   - Each operation is given the time that it reads and the outcome of the random generator. One handler
--     reads one instant, and one SQL statement runs at NOW().
--   - A query runs at once and alone; `faults` of `Db` decides which queries fail, with which error. A
--     failed INSERT still draws the serial number and the UUID of its row.
--   - The functions of `Platform` are parameters: Unicode-aware string functions, SHA-256, URL and UUID
--     parsing, the JWT checker of go-cloud-k8s-common-libs, the OAuth exchange and the profile
--     endpoints. Theorems hold for all of them; where one relies on documented behaviour (that
--     pgxscan reports pgx.ErrNoRows, that a UUID's text parses back, that the JWT checker signs all
--     claims, that a query comes upon every row once), it is a hypothesis.
--   - The order in which PostgreSQL comes upon the rows of a page is a parameter (`scan`), since `listUsers`
--     does not order users of one creation time; the sequences of the tables are counters of `Db`.
--   - `int32(x)` keeps the low 32 bits; other integers of the code do not come near their bounds.
--   - The goroutine that records the use of a token runs at once. The cleanup goroutine of the state store
--     is a step that may come between any two others. No loop of the model needs fuel.
--   - A request of the server is given its time, the outcomes of the random generators and its
--     Authorization header. Echo's choice of a route, Vanguard's reading of a request as a procedure and a
--     message, and the decoding of messages are parameters, for all of which the theorems hold.
--   - `main` is an `Action` on the list of the stages done; an error ends the program. What the libraries
--     answer during the start-up is the record `Libraries`.
--
-- Not modelled: log lines and message texts, the HTML of the login page, metrics and CORS, the routes of
-- development builds (nothing calls them), the generated clients and messages, the printing of the example
-- client, the version package, and deadlines of contexts.
pub mod Prelude
pub mod Domain
pub mod Platform
pub mod Rbac
pub mod Server
pub mod Program
pub mod Client
pub mod StateStore
pub mod Storage
pub mod Mappers
pub mod UserService
pub mod PatService
pub mod OauthProviders
pub mod AuthService
pub mod Connect
pub mod Browser
pub mod Fixtures
