-- ===== src/Lib.antt =====
-- A model of the EVM oracle: nodes that agree by PBFT on the answers of a language model, over a
-- transport between peers.
--
-- Consensus/ models oracle/pkg/consensus. Message, Votes and Engine hold the data of types.go and the
-- record PBFT; Validate is validateMessage and ProcessMessage, Execute is broadcast, makeCheckpoint,
-- cleanup and executeConsensus with the network manager of network.go, ViewChange is startViewChange,
-- handleViewChange and processNewView, Handlers is ProposeValue and the handlers that handleMessage
-- calls. Run puts them into time: a history is a list of steps, one for each call of ProcessMessage or
-- ProposeValue, each message that the engine's loop takes, and each run of the view timer; calls that
-- wait on the full channel stand in a list of their own and go in by turns. Slots is an
-- abstract machine for one sequence number, Histories runs it beside the engine, Normal goes through the
-- phases at one engine, and Kinds counts messages by type. What the engine does to its surroundings,
-- messages handed to the transport and results handed to the callback, is a list of outputs. SHA-256,
-- JSON and the success of a broadcast are the record Env. InitConsensus of
-- oracle/pkg/node/oracle_node.go is init_consensus of Engine.
-- Network/ models oracle/pkg/network: Framing is types.go, Transport is p2p.go with Dispatch for its
-- handleMessage and Accept for the connections that come in, Health is checkPeer of health.go and
-- Manager the rest of it, Discovery is discovery.go and Retry is retry.go. JSON is a codec, and the
-- sockets are the record Net, which says what each call does.
-- Similarity/ models oracle/pkg/similarity/semantic.go: Floats has CosineSimilarity over an interface of
-- float32, Embeddings has GetEmbedding, Clusters has ClusterResponses and SelectConsensusResponse; the
-- API of the embeddings and sort.Slice are parameters.
-- Node/ models oracle/pkg/node/oracle_node.go: Requests has the node and its requests (types.go) with
-- Start, Stop, RegisterPeer and GetRequestState, Prompts is ProcessPrompt, Results is
-- handleConsensusResult, Incoming is a round of handleMessages; the clients of the language model and of
-- the storage, JSON and the order of a range are parameters. Recovery is recovery.go, and Lifecycle is
-- oracle/pkg/types/node.go. A node of Requests has one transport, which its network manager shares;
-- Wiring models the two pointers, for run_node.go, which sets the one after the other has been copied.
-- A node's engine is that of Consensus/, its transport that of Network/, its scorer that of Similarity/.
-- Logging/ models oracle/pkg/logging/logger.go, Config/ config/config.go (Loader) and the other
-- configuration files (Files), Storage/ oracle/pkg/storage (Interface is StorageClient, Pinata its
-- client of Pinata) and Llm/ agent/llm/openai_client.go; Http has what they and the listener use of
-- net/http. Server/ models oracle/cmd/server/main.go: Setup makes and starts the seven nodes, Tracker is
-- the record of their messages, Prompt is handlePrompt on the nodes of Node/, Summary and Matrix are the
-- counts of messages and the similarity matrix that it prints. Listener/ models scripts/main.go: Client
-- has its calls of the oracle and of the chain, Monitor is monitorBlockchain and runListener;
-- Server/Relay joins the listener to the server. Runner/ models scripts/run_node.go: Setup is the list
-- of peers and the callbacks, Start is main up to the registered peers, Counts has the statistics of
-- messages, Handler is the handler of /request, on a node of Node/. Caller/ models scripts/caller.go:
-- Command is main without its wait, Wait is waitForResponse. Mocks models oracle/tests/test_utils.go.
-- The other modules hold what is proved, and the modules Examples apply it to small cases. Base has the
-- shared names, lists measured by native numbers, and Go's maps as association lists behind their laws
-- (Base/Dict).
--
-- uint64 is a number below 2^64, whose sums and differences wrap. The only fuel is that of receive_loop:
-- each round takes at least four bytes off the connection, so their number is enough.
--
-- Not modelled: locks and goroutines (each step is one critical section), the timers' durations, what
-- programs print and log, flags and signals, the start of the HTTP servers, oracle/cmd/node/main.go,
-- which starts a node of packages that the repository does not hold, and the contracts, which are in
-- another language. What a node does while a handler sleeps is an argument of the handler, or a list of
-- events. The order in which Go ranges over a map is an argument of the transport's broadcast; where the
-- result does not depend on it, it is left out.
mod Base
pub mod Consensus
pub mod Network
pub mod Similarity
pub mod Node
pub mod Logging
pub mod Config
pub mod Http
pub mod Storage
pub mod Llm
pub mod Listener
pub mod Runner
pub mod Server
pub mod Caller
pub mod Mocks
