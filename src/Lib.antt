-- ===== src/Lib.antt =====
-- A model of the TypeScript agent of this repository (agent/src): the agent's loop over a model and
-- its tools, the transactions it signs and proposes, the chat service around it, and who may call it;
-- of its payment server and page (agent/examples), the project generator (create-sovereign-agent) and
-- the committee's signing program (sovereign/committee).
--
-- The parts and how they interact. A chat client sends a message through the service of
-- agent/src/chat; the service stores it, emits it to the chat's subscriptions and hands the stored
-- messages to the agent, whose answer it stores and emits in turn. The agent asks a model, runs the
-- tools that the model calls and records their results, until the model answers or calls the
-- completion tool. Tools for payments leave a state in the agent. Other tools sign and broadcast
-- transactions through a signer, which holds a private key, uses an enclave over gRPC, or proposes to
-- a Safe. The payment server of agent/examples gives the agent tools that pay over Lightning, and a
-- page asks it and shows what it paid.
--
-- Files, with the code that they model, under agent/src or where Spark and the entries below it say:
--   Common, Json            values, actions that may throw, texts; JSON values as JSON.parse returns
--   Agent                   common/agents/agents.ts, common/tools/completion.ts: `execute` is
--                           Agent.execute, `rounds` its for loop, `run_tool_call` the body of its
--                           loop over tool calls, `new_agent` the constructor
--   Chat.Types              chat/generated/graphql.ts, chat/storage/types.ts
--   Chat.Subscriptions      chat/services/MessageEventService.ts: the listeners, `next`, the map of
--                           tool messages
--   Chat.Hub                the same service with many subscriptions: `Step` is what may happen next,
--                           and preToolCallHook of common/agents/agents.ts; Chat.Waiting is its
--                           waitForSubscription
--   Chat.Resolvers          chat/resolvers/index.ts, and a request of chat/plugin.ts up to them
--   Chat.Storage            chat/storage/postgres.ts and chat/storage/sqlite.ts over tables of rows;
--                           Threads is what a storage promises, without its rows
--   Chat.Service            chat/services/ChatService.ts, chat/types.ts
--   Auth                    common/middlewares/auth.ts, common/middlewares/jwt.ts, and the preHandler
--                           hook of chat/plugin.ts
--   Transactions            common/transactions: Hex and Signer are executeTransaction.ts,
--                           SafeSignature is safe.ts, Swap is swap.ts, GrpcClient is
--                           grpcEthereumSignerClient.ts, KeyPool the messages that it exchanges, in
--                           common/generated/proto/key_pool.ts
--   Utils                   common/utils: Chunker is chunker.ts, Canonicalize is canonicalize.ts
--   Memories                common/memory/sqlite.ts, packages/memory-postgres/index.ts, and embeddings
--                           of common/models/openai.ts; Graph is packages/memory-neo4j/neo4j.ts
--   Tools                   Uniswap is common/tools/uniswap.ts, Widgets is donate.ts, plan.ts and
--                           nftCollection.ts there, Images is common/tools/replicate, Twitter is
--                           twitter.ts, Search is common/tools/perplexity
--   Models                  common/models/openai.ts, but for its embeddings
--   Scheduler               common/scheduler/scheduler.ts, common/executors/simple.ts
--   Files                   common/storage/local.ts, common/storage/s3.ts, common/utils/filesystem.ts
--   Api                     api/openai and common/utils/http/headers.ts
--   Spark                   agent/examples: Lightspark is src/lightspark.ts and the tools of src/tools,
--                           Server is src/spark-server.ts, Requests the steps of its requests where
--                           they overlap, Page is public/app.js, Page.Traffic the page with the
--                           server behind it
--   Generator               create-sovereign-agent/cli.js
--   Committee               sovereign/committee/signing/safe_sign.js
-- A file named after a property or a topic below such a part holds lemmas; Examples holds runs.
--
-- How code becomes definitions. An asynchronous method is an action: a function from a state to a
-- result or a thrown error, and the state that is left. An object's fields are a record in that state.
-- `world` is the state of what the code calls outside itself. A text is opaque where the code only
-- compares and joins it, and the list of its UTF-16 code units where the code cuts or searches it.
--
-- Bounds and fuel. The agent's loop runs on the 30 steps that Agent.maxSteps allows, so it needs no
-- other bound. chunkText has a loop that need not end: `chunk_text` runs on fuel and is absent where
-- the fuel is too little, and the results below say for which texts some fuel is enough and for which
-- none is. All else is structural. Bytes are numbers below 256; amounts in wei are unbounded, as
-- JavaScript's bigint is.
--
-- Parameters. The model, the tools, the memory, the JSON engine, the OpenAI library, the vector
-- tables, the file system, S3, the Lightspark client, node-cron, the Neo4j driver, the Twitter client,
-- the gRPC transport, the Safe SDK, the wallet library, the JWT library and the database's ids,
-- reading of texts as ids, clock and order of rows are arguments of the definitions that use them.
--
-- Not modelled: the schemas of most tools, the wiring of the servers, the JSON forms of the generated
-- messages, the contract ABIs, the other examples, the HTML of the page's messages, and the enclave's
-- Rust code. A temperature is not part of an agent's configuration here. A storage call is one step:
-- the statements of two calls do not interleave. So is a request of the payment server where the page
-- asks it: what is said of handle_execute is said of a request that no other one overlaps. Spark.Requests
-- has the steps of requests that do, in which a round of the agent is one step.
pub mod Common
pub mod Json
pub mod Utils
pub mod Transactions
pub mod Tools
pub mod Memories
pub mod Files
pub mod Agent
pub mod Chat
pub mod Auth
pub mod Api
pub mod Spark
pub mod Generator
pub mod Committee
pub mod Scheduler
pub mod Models
