-- ===== src/Lib.antt =====
-- all2api: a gateway that forwards the requests of its clients to upstream platforms and chooses a
-- key of the platform's pool for each attempt.
--
-- The parts and how they interact. ServeHTTP (internal/proxy/handler.go) splits the path into a
-- namespace and a rest, finds the platform, lets the authenticator (internal/auth/auth.go) decide,
-- and then makes attempts: it acquires a key of the platform's pool (internal/keypool/keypool.go),
-- lets the transport (internal/proxy/transport.go) send the request with the key that the provider
-- (internal/provider/provider.go) puts into the headers, and reports the outcome to the pool. An
-- answer of the classes success and client error is passed on, and after the others the next
-- attempt is made, until no key is available or the limit is reached.
--
-- Prelude and its children: Boolean tests, lists, the signed int and results. Text, Header and Clock:
-- what the program uses of Go's strings, strconv, net/http (canonical names, Get, Set, Add) and
-- time. A string is the list of its bytes, an instant the nanoseconds since Go's zero time, an int a
-- signed number; `increment` (Prelude/Int.antt) wraps at 64 bits.
-- RateLimit: internal/keypool/ratelimit.go, ParseRateLimit.
-- Keypool: keypool.go. `Pool` has the keys in the configured order. Keypool.antt has New, Snapshot,
-- refreshLocked and Acquire; Keypool/Mark.antt the methods MarkExhausted, MarkRateLimited, MarkError,
-- MarkKeyInvalid, UpdateFromUpstream and EarliestRecoverySeconds. A method takes the clock's reading
-- and returns the new pool. The mutex makes each method one step, so Keypool/Step.antt has a call as
-- data and `run` for any order of the calls of concurrent requests.
-- Keypool/Schedule.antt is the abstract view: slots that are ready or closed up to a time.
-- Auth: auth.go. Provider: provider.go, whose interface has one implementation.
-- Proxy: handler.go and transport.go. Proxy.antt has the types and NewHandler, Proxy/Transport.antt
-- the method do, Proxy/Exchange.antt what a request reads and writes, and Proxy/Serve.antt ServeHTTP:
-- serve, serve_platform, serve_decided and serve_pool are its guards in their order, attempt is the
-- loop, try_key a round of it, and react the switch over the outcome. The pools are a store behind
-- references, because platforms share them. A record `World` has what the code does not decide: the
-- clock, the replies of the network, the error of net/http for a URL, the end of the client's
-- context, and, before each step that takes a pool's lock, the calls that other requests make.
-- Proxy/Rule.antt is the rule by which properties of the whole of ServeHTTP are shown.
-- Logstore: internal/logstore/logstore.go. The file is its lines; the JSON form of an event and the
-- errors of the file system are parameters.
-- Config: internal/config/config.go. Config.antt has the types, Config/Validate.antt Validate,
-- Config/Env.antt the variables of the environment with their names, and Config/Files.antt Load, Save
-- and Clone. Table: Go's maps with strings for keys, as lists of their entries in the order of a range
-- loop. Text/Utf8.antt: the runes of a text, as Go's range loop reads them.
-- Gateway: internal/gateway/manager.go. Gateway.antt has buildProxy, New and ReplaceConfig; a pool's
-- reference is its place among the pools of the configuration. Gateway/Overview.antt has the dashboard.
-- Gateway/Docs.antt has APIDocs, with its types in Gateway/Docs/Types.antt and the endpoints of the
-- three kinds of platform in Football, Basketball and Generic beside that.
-- Admin: internal/admin/admin.go. Admin.antt has the state, the snapshot of the pools and the admin
-- key, Admin/Handlers.antt the handlers and the routes, and Admin/Rule.antt the rule for properties of
-- all routes. `AdminState` has the pools of the manager in the state that the proxy left them in.
-- Start: cmd/gateway/main.go up to the listener, with the parts in the order in which main makes them;
-- Start/Life.antt is a step relation for the requests that the started program serves.
--
-- Bounds and fuel. The loop of ServeHTTP is recursion on the attempts that are left, which is exact.
-- The loops of Text that trim have the text's length for fuel, which is enough since each round drops
-- a byte at least (Text/Trim.antt shows that none is left to drop); the digits of a number have the
-- number plus one.
--
-- Not modelled: the lines of the slog logger; the encoding of a JSON body, which stands as the value
-- that is encoded; time limits of the HTTP client, which are errors of the network, and the requests
-- with which client.Do follows a redirect of the upstream: a request is sent when it is handed to
-- client.Do; what a failed Validate leaves of the object, which its callers discard; the flags, the
-- patterns of http.ServeMux, the listener, the signals and the shutdown of main, which are the standard
-- library's; the files of the console. Parameters: the YAML form of a configuration with the law that
-- Unmarshal reads back what Marshal writes (`Yaml` of Config/Files.antt, by which Clone is a copy;
-- Config/Plain.antt has a form with this law), the JSON forms, the errors of the file system, the
-- environment, and the verb %q of package fmt.
pub mod Prelude
pub mod Text
pub mod Table
pub mod Clock
pub mod Header
pub mod RateLimit
pub mod Keypool
pub mod Provider
pub mod Auth
pub mod Logstore
pub mod Config
pub mod Gateway
pub mod Admin
pub mod Proxy
pub mod Start
