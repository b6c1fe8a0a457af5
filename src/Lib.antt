-- ===== src/Lib.antt =====
-- HTTP Tunnels: the Go programs of internal/, which carry requests from a public server through a
-- WebSocket, the tunnel, to a client; the admin console, a React application under
-- cmd/server/web/src, with the part of the server that its pages depend on; and the two programs of
-- tmp/ that try a WebSocket.
--
-- The server keeps one session for each connected tunnel. A user's request is entered in the store of
-- pending requests and sent as frames through the scheduler of the session; the read loop of the
-- tunnel hands the frames of responses to the requests in the store, whose handlers read them from
-- channels, and those of WebSockets to bridges.
--
-- The console shows the active tunnels, the traffic that went through them, and the requests. Every
-- page asks the server through `api` (lib/api.ts), holds what it got in the cache of react-query under
-- a key, and renders components; a deletion goes back through `api` and invalidates keys. The
-- layout sends those without a session to the login page.
--
-- How the files correspond to the code (lib, components, hooks and pages are folders of
-- cmd/server/web/src):
--   Protocol         proto/frame.proto: the frames of a tunnel.
--   Protocol/Scheduler
--                    internal/protocol/scheduler.go: the whole of FrameScheduler. Order, Valid, Turns,
--                    Pops, Traces and Ring carry what Streams, Loop, Fairness, Starvation and Waits
--                    conclude.
--   Tunnel/Pending   internal/server/pending.go: requests that wait for their responses, and the store;
--                    Expiry is about its clean-up.
--   Tunnel/Sessions  internal/server/tunnel.go: a session, its store, its heartbeat (Heartbeat) and the
--                    limit on requests as the handlers of handlers_tunnel.go use it (Limit).
--   Tunnel/Sockets   internal/server/wsbridge.go, with the buffer of handlers_tunnel.go for frames
--                    that come before their bridge. Steps takes the read loop and a handler apart into
--                    what each lock covers; Orders and Runs carry Races, which is about the two
--                    together.
--   Tunnel/Frames    internal/server/handlers_tunnel.go: the read loop of a tunnel beside the handlers
--                    that read from it, over the store, the bridges and the session. Objects and
--                    Bodies carry Streams and Stuck.
--   Tunnel/Connections
--                    internal/server/handlers_tunnel.go: what the start and the end of a connection do
--                    to the sessions and the requests, call by call. Serving is about any order of
--                    these calls, Hosts about the lookup of a session by host.
--   Tunnel/Preview   internal/server/preview.go: the captures of bodies, with IsTextContentType of
--                    internal/protocol/http.go.
--   Client/Requests  internal/client/app.go: the table of requests and the handlers of frames; Runs is the
--                    read loop beside the goroutines of the requests, Keeps, Bodies and Streams are
--                    about the chunks of a body, Panics about requests that end early.
--   Client/Update    internal/client/update.go: replaceExecutable and copyFile, over a file system
--                    whose calls may fail.
--   Prelude          what the other files share: Boolean tests, lists, integers, text.
--   Dom              a component's result as a tree over the actions of its handlers, and what of
--                    the tree can be clicked, submitted, followed and read.
--   Format           lib/format.ts: formatBytes, formatCount, formatDateTime, formatDurationFrom,
--                    formatDurationMs, formatStatusClass.
--   Url              URLSearchParams and String.prototype.trim, after the URL standard, and a form
--                    decoder.
--   Api, Api/Calls   lib/api.ts: the records, buildQueryString, request, and the methods of `api`.
--   Components       components/*.tsx and components/charts: Basic (status-badge, metric-card,
--                    page-header, page-loading, pagination-controls, delete-tunnel-dialog), Tables,
--                    Logs, Charts, RangePicker (chart-range-picker.tsx), Sidebar (app-sidebar.tsx).
--   Hooks            the fields of useQuery that the pages read, keys, and the effects of handlers.
--   Pages            pages/*.tsx: Deletion (what tunnels-page.tsx and dashboard-page.tsx share),
--                    Tunnels, Dashboard, TunnelDetail, Activity, ActivityDetail, Login, Layout. A page
--                    is a state, a step function over its events that gives the new state and the
--                    effects, a key and a call, and a function from the state and the query to a tree.
--                    Cache puts the keys and calls of all pages together.
--   Mobile           hooks/use-mobile.ts, with the widths that the window takes.
--   Ws               tmp/ws-client.js and tmp/ws-mock-server.js, the two ends of a WebSocket to try a
--                    tunnel with; Ws/Session lets them talk over frames delivered in order.
--   Server           internal/server/app.go: parsePaginationParams, normalizePagination, totalPages.
--   Server/Auth      internal/server/auth.go, and of config.go and handlers_admin.go what the session of
--                    the console depends on: the cookie, the login, the guard of the admin API.
--                    Server/Auth/Console joins it to the layout and the login page.
--   Tests            the theorems at concrete inputs.
-- A file X/Laws proves the properties of X; Api/Query, Api/Outcomes, Format/Bytes, Format/Durations,
-- Format/Classes, Server/Pagination, Components/Tables/Requests, Components/Logs/Items and the files
-- Runs and Traces, which are about sequences of events, are named for what they are about.
--
-- What stands outside of the code is a parameter: `Platform` (Intl, Date, JSON.stringify),
-- `Calendar` (date-fns), `DialogPrimitive` (what the dialog of components/ui does behind a click),
-- `GoText` (strings.TrimSpace and strconv.Atoi of Go), `GoAuth` (base64, hmac, strconv and strings
-- of Go), `Json` (two objects of ws-mock-server.js), `Gorilla` (what the WebSocket library answers
-- to a write), `Mime` (mime.ParseMediaType), and the outcomes of the calls of the file system. An
-- answer of fetch is an argument.
--
-- Bounds: the loop of popNextRequestLocked has the length of order as its fuel, since every turn
-- that goes on takes an entry off it. Times are nanoseconds since a common start, as natural
-- numbers. A channel for a body or for frames holds 16 entries, as it is made. The counter of a
-- session and its limit keep their wrap-around at 32 bits. What goroutines share under a lock
-- changes one call at a time; where the order of the calls of several goroutines matters, the calls
-- are events of their own, in any order: in Tunnel/Connections, Tunnel/Sessions/Limit,
-- Tunnel/Sockets/Steps, Tunnel/Frames and Client/Requests. Tunnel/Frames, which is about responses,
-- takes a frame of a WebSocket in one.
--
-- A size of lib/format.ts is a fraction, which a division by 1024 keeps exact, as it does a
-- floating-point number; the loop of formatBytes has four rounds, one for each unit behind the
-- first, and the recursion is on the rounds left. The decimal print of n has fuel n + 1, more than
-- its digits. Byte counts and counters are natural numbers, as are the numbers of a query string,
-- below 2^53; the server's quotient of floating-point numbers in totalPages is written as one of
-- natural numbers, with which it agrees below 2^45 items for the sizes up to 100 that the server
-- admits.
--
-- Not modelled: attributes that only style (`className`, sizes, variants of a button), timers
-- (refetchInterval) and the caching times of react-query; components/ui and node_modules/ws, copies
-- of other projects; the routes of App.tsx, whose matching is the router's, and main.tsx. Of the Go
-- programs: the reading and writing of frames on a socket, protobuf code, SQL, logs, flags, the
-- health handlers, downloads and archives; the joining of headers, handleNewTunnel, the rest of
-- handleTunnelHTTP, proxyRequest and proxyWebSocket of the client, and the pipe behind its channel
-- of a body; the delays of reconnect.go, which are floating-point numbers, and the field
-- `multiplier` of the configuration that carries one.
pub mod Prelude
pub mod Protocol
pub mod Tunnel
pub mod Client
pub mod Dom
pub mod Format
pub mod Url
pub mod Api
pub mod Components
pub mod Hooks
pub mod Pages
pub mod Server
pub mod Ws
pub mod Mobile
pub mod Tests
