-- ===== src/Lib.antt =====
-- A model of the SwiftLM platform: the dashboard of dashboard/src, which lets an administrator register
-- inference nodes, hands out API keys, and takes the requests of clients and of the administrator's own
-- chats to the nodes; and the gateway of mlx-gateway, which stands in front of a node's backend.
--
-- The parts, and where each is modelled:
-- - Base: texts as lists of UTF-16 units, Boolean tests, and lemmas on lists.
-- - NodeAuth: dashboard/src/nodeAuth.js, the signatures between the dashboard and its nodes and the
--   cache of nonces (`sign`, `verify`, `claim`); mlx-gateway/nodeAgent.mjs holds the same code.
-- - Store: dashboard/src/db.js. A record of seven tables; each operation of `createStore` is one
--   function from the store to the store and its result. Store/Secrets has the encryption of
--   credentials, Store/Nodes, Models, Keys, Conversations, Requests, Tokens and Deletion have the
--   operations by table, Store/Startup has the start, and Store/Steps puts all operations that
--   change the store into one step function. The other children hold theorems.
-- - Sse: the cutting of events out of chunks in dashboard/src/proxy.js.
-- - Collector: `createMetricsCollector` of dashboard/src/proxy.js.
-- - Stream: `streamDashboardChat` of dashboard/src/proxy.js from the first chunk of the answer on.
-- - Providers: dashboard/src/providers.js, the names, the headers and the detection; Providers/Bodies has
--   `prepareRequestBody` on JSON values.
-- - Upstream, Relay and Proxy: `proxyOpenAI` of dashboard/src/proxy.js: the request to a node with its
--   headers, the forwarding of a stream, and the handler itself.
-- - Server: dashboard/src/server.js. Server/Input reads requests; Server/Login, NodeRoutes, KeyRoutes,
--   TokenRoutes, Status, Enrollment and Chats have the handlers, each a function from the store to the
--   store and a status.
-- - Sessions: dashboard/src/auth.js, the administrator's session: `createSessionCookie`,
--   `verifySessionCookie`, `parseCookies`, `issueApiKey` and `bearerToken`, and `adminSession` and
--   `secureCookie` of server.js.
-- - MessageQueue: dashboard/public/message-queue.js.
-- - Markdown: dashboard/public/markdown-enhancer.js, `splitStableMarkdown` and the streaming renderer, and
--   the escaping of texts and links.
-- - Gateway: mlx-gateway/server.mjs, the queue of inference jobs. The module itself has `enqueue`,
--   `drainQueue`, `startUpstream` and `finishJob`; Gateway/Handlers has the callbacks of a job as one
--   step function on `Input`; the other children hold theorems.
-- - Agent: the gateway as a node of the dashboard. The module itself has `loadAgentState` and
--   `sendHeartbeat` of mlx-gateway/nodeAgent.mjs and `verifyGatewayRequest` of server.mjs; Agent/Delivery has
--   how a heartbeat reaches its handler in dashboard/src/server.js, by its address; Agent/Entry has the
--   request handler of server.mjs and Agent/Join has mlx-gateway/join.mjs.
--
-- How they interact: a handler of Server calls operations of Store; Server.KeyRoutes lets a client in
-- and Proxy takes its request on; Relay and Stream read the answers by Sse and count by Collector;
-- Server.Enrollment gives a node the secret that NodeAuth signs with; Agent signs its heartbeats with
-- it, which Server.Enrollment checks, and checks with it what Upstream signs; Agent.Entry passes what
-- it lets in to Gateway, whose metrics at the end of a stream Sse reads.
--
-- Moments are numbers of milliseconds, and every value that the code draws at random or reads on the
-- clock is an argument. The digests, the cipher, the JSON and URL parsers, the decoding of a
-- body's bytes to the text that is signed and the network are parameters. A timestamp is read as its
-- whole part and whether it has a fraction. A flag of a request is its truth value and a field its text. Statements of the database
-- run one at a time; a statement that throws changes nothing, and an operation of several statements
-- keeps those before the one that throws unless it is a transaction. The only fuel is that of
-- `Sse.drain`: each event takes two units of the buffer at least, so the buffer's length is enough,
-- which the theorem on `drain_buffer` includes.
--
-- Not modelled: the pages and most listings of dashboard/src/server.js, the reading of metrics from JSON
-- in dashboard/src/providers.js, the rendering of a block of Markdown, the rest of the browser's pages in
-- dashboard/public, the rotation of the gateway's log file, and the start-up code of deploy.
pub mod Base
pub mod NodeAuth
pub mod Store
pub mod Sse
pub mod Collector
pub mod Stream
pub mod Server
pub mod Providers
pub mod Upstream
pub mod Relay
pub mod Proxy
pub mod MessageQueue
pub mod Gateway
pub mod Agent
pub mod Sessions
pub mod Markdown
