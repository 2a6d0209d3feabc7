-- ===== src/Lib.antt =====
-- Verification of the p2p core of drt-go-chain-communication (Go).
--
-- The program runs the peer-to-peer network of a node on libp2p. Its parts, and the files here that
-- model them:
--   PeersHolder   p2p/peersHolder/peersHolder.go and its connection string validator: the preferred
--                 peers, found by the address of their connection and kept by shard. The Go maps are
--                 association lists; `none` is the panic of a slice expression (`remove`).
--   Rating        p2p/rating/peersRatingHandler.go: the rating of each peer, in a cache for good and a
--                 cache for bad ratings. The caches are a parameter with the laws of `types.Cacher`
--                 (Rating/Cache), evictions included.
--   Sharding      p2p/libp2p/networksharding/listsSharder.go: the connections to close when there are
--                 too many. Sharding/Sorting has `evict` with `sort.Sort` as a parameter, and
--                 Sharding/Distance the two distances between peer IDs. Sharding/OneList is
--                 oneListSharder.go beside it, and Sharding/Factory picks one of the sharders.
--   Monitor       p2p/libp2p/connectionMonitor/libp2pConnectionMonitorSimple.go: what is done about new and
--                 closed connections, and the loop that reconnects (Monitor/Loop, a step relation with
--                 the loop's timers). Network has the network of libp2p as an interface with laws.
--   Connections   p2p/libp2p/connectionsHandler.go: the lists of peers and addresses, the waiting loops,
--                 and (Connections/Info) the connected peers by shard and type.
--   LoadBalancer  p2p/libp2p/outgoingChannelLoadBalancer.go: the named channels of outgoing messages.
--                 A Go channel is its number in the order of creation; closing one is recorded.
--   Message       p2p/libp2p/message.go, p2p/message/message.go: a pubsub message read as a message of
--                 the protocol.
--   DirectSender  p2p/libp2p/directSender.go: messages sent to and received from one peer. The cache of
--                 seen messages, the encodings and the signer are a parameter (`Net`).
--   Messages      p2p/libp2p/messagesHandler.go and topicProcessors.go: the processors of each topic and
--                 what is done about a received message. Pubsub and the black list are parameters
--                 (`PubSub`, `DenialEvaluator`). Messages/Topics has the topics that are joined,
--                 Messages/Sending what is sent.
--   Verifier      p2p/messageCheck/messageVerifier.go: signatures, and lists of messages as bytes.
--   PeersOnChannel  p2p/libp2p/peersOnChannel.go: the cached peers of each topic and their refresh.
--   Ports         p2p/libp2p/ports.go: a port from a number or a range. `strconv.Atoi` and
--                 `strings.Split` are written out, the shuffle is a parameter, and `none` is the panic of
--                 `make`.
--   Websocket     websocket/: Websocket/Transceiver is transceiver/transceiver.go, messages and their
--                 acknowledgements; Websocket/Connection is connection/wsConnClient.go; Websocket/Peers
--                 is server/ and client/. A Go channel is again a number, and closing one twice, which
--                 panics, is `none`.
--   Discovery     p2p/libp2p/discovery/: which peers the host connects to (hostWithConnectionManagement.go)
--                 and the steps of the loop of optimizedKadDhtDiscoverer.go.
--                 Discovery/Continuous is continuousKadDhtDiscoverer.go; its loop over the seeders has
--                 fuel, and one turn per seeder is enough if one of them accepts then.
--   Metrics       p2p/libp2p/metrics/ and mutexHolder.go: counters of connections, the peers that are
--                 printed, and locks by key.
--   Errors        p2p/errors.go. Prelude: what Go gives the code, on which all else stands.
-- The connection monitor tells the peers holder of new connections and asks the sharder for an
-- eviction list; the sharder asks the same peers holder, through `Contains`, for the peers to spare
-- (`Monitor.Connecting.lists_sharder`). The discovery asks the same sharder before it
-- connects. The connections handler sets the sharder's resolver and the monitor's threshold. The direct sender hands what it receives to the messages handler, which sends
-- through the load balancer's channels and raises the ratings; the verifier makes the direct sender's
-- check of a signature on messages of others.
--
-- Methods are functions from the old state to the new one, with the Go operations in their order. A
-- lock makes a method one step, so an interleaving of calls is a sequence of steps; `Step` and `Reach`
-- of PeersHolder/Adding, LoadBalancer/Serving and Messages/Registration are these sequences. Loops are
-- recursion on the list that they run through: but for that loop over the seeders no fuel is needed.
-- An `int32` rating is an integer that wraps after an addition, a `uint64` counter is a number modulo 2^64, and lengths and limits, which a 64-bit `int`
-- holds, are natural numbers. Where Go goes through a map in any order, the order is an argument
-- (unregister_all_message_processors) or plays no part.
--
-- The connection monitor's goroutine has events (`LoopEvent`) in any order that `Step` allows; what
-- an endless loop reads (messages, timers, intervals) is a list, and a loop that the list does not end
-- gives `none`.
--
-- Not modelled: logging, contexts and goroutines that only move data (the copying between channels in
-- appendChannel), the bytes on a stream, libp2p and the other repositories' packages (parameters where
-- the code uses their results), generated code, mocks, the goroutines of the discovery
-- that call the modelled steps, the network messenger (p2p/libp2p/netMessenger.go), the debugger of the
-- messages handler, and of the websocket part the HTTP server, the loops that open connections again and
-- the exchange of the payload handler.
pub mod Prelude
pub mod Errors
pub mod PeersHolder
pub mod Sharding
pub mod Network
pub mod Monitor
pub mod LoadBalancer
pub mod Message
pub mod DirectSender
pub mod Verifier
pub mod Rating
pub mod Messages
pub mod PeersOnChannel
pub mod Ports
pub mod Connections
pub mod Websocket
pub mod Discovery
pub mod Metrics
