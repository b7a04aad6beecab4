-- ===== src/Lib.antt =====
-- service-mesh-nats-go, a service mesh transport over NATS: a Client that sends requests and publishes,
-- and a Runtime that serves endpoints and subscribers on that client's connection. The program is the
-- Go package nats/. A client checks a message, turns its target into a subject and its metadata into a
-- header, and sends it. A runtime reads its settings once, opens a subscription or a JetStream consumer
-- for each receiver, and passes each message that arrives through one gate to a handler.
--
-- The parts, with the file that models each:
--
--   Prelude.antt, Go.antt   what the model uses of Go: maps, text, strconv, time.ParseDuration, times
--   Mesh.antt               the types and names of the mesh module, and what it and nats.go document
--   Errors.antt             nats/errors.go, results and errors.Is
--   Target.antt             nats/target.go: subject, checkSegment, checkKind, prepareSubscription,
--                           consumerGroup, mergeSettings
--   Header.antt             nats/header.go: toHeader, fromHeader, outgoingHeader, incomingMetadata
--   Config.antt             nats/config.go: the keys, parseClientSettings, parseRuntimeSettings, connect,
--                           and readPullSettings of nats/jetstream.go
--   JetStream.antt          nats/jetstream.go: parseJetStream and the settings below it, consumeOpts
--   Client.antt             nats/client.go: Request, Publish, Stream, Close, boundContext, timeoutError;
--                           NewClient in Client/Made.antt
--   Consumer.antt           nats/consumers.go: openConsumer, deadline, lastDelivery, lateStartLogged
--   Dispatch.antt           nats/runtime_dispatch.go: dispatch, isAccepting, setAccepting
--   Delivery.antt           nats/jetstream.go and nats/runtime_jetstream.go: begin, settle, and how
--                           receive, serveJetStream and abandonPending race over a delivery
--                           to settle it
--   Serve.antt              nats/runtime_serve.go: serve, callEndpoint, callSubscriber
--   Exchange.antt           Request of nats/client.go together with serve; Publish together with
--                           serveJetStream in Exchange/Published.antt
--   Runtime.antt            nats/runtime.go: New
--   Runtime/Receivers.antt  nats/runtime_receivers.go: openReceivers, subscribe; consume of
--                           nats/consumers.go and checkEndpointStreams of nats/jetstream.go
--   Runtime/Lifecycle.antt  nats/runtime.go: Start, Stop and their helpers, abortStart
--   Runtime/Missing.antt    nats/consumers.go: consumeError, watchMissing, checkMissing, logMissing
--   Runtime/Waits.antt      nats/consumers.go: waitConsumersClosed
--   Runtime/Stopping.antt   nats/runtime.go: the drain of Stop and its select, flush, flushOnStop;
--                           waitSubscriptionsDrained of nats/runtime_receivers.go, abandonDrain of
--                           nats/runtime_jetstream.go
--   Runtime/Accessors.antt  nats/runtime_public.go: Receiver, and its ConsumerGroup and Stream
--   Delivery/Pool.antt      nats/runtime_jetstream.go: all deliveries at once, with abandonPending
--   Runbooks.antt           docs/runbooks/cmd: send in Send.antt and SendMain.antt, serve in
--                           ServeHandler.antt and Serve.antt, streams in Streams.antt
--   Examples.antt           examples: client, server and echo in files of these names; report, and
--                           describe of the command send, in Reports.antt
--   Receive/Messages.antt   nats/jetstream.go: deliveryMetadata
--   Receive/Logs.antt       nats/runtime_jetstream.go: logLateStart, logFinalFailure
--   Receive/Handed.antt     nats/runtime_jetstream.go: serveJetStream up to the call of the handler
--   Receive/Served.antt     nats/runtime_jetstream.go: the rest of serveJetStream, nak and abandon
--   Receive/Pending.antt    nats/runtime_jetstream.go: the pending deliveries, untrack, abandonPending
--   Tests.antt              concrete runs, and the theorems applied to them
--
-- How the code is translated. A function that returns an error returns a Result. A map that may be nil
-- is an option, and a write to a nil one is the outcome `panic`. A Go map is the list of its entries in
-- the order in which range visits them; the theorems hold for every order, and Go/Unordered.antt has the
-- quotient in which the order is forgotten. A method that changes its receiver returns the new one. The answers of nats.go and of the server are arguments, so a theorem
-- holds for every server; a call to them is recorded with what it was sent. The clock is an argument
-- too. Where goroutines interleave, each atomic action is a step of a relation, and a theorem is about
-- every sequence of steps.
--
-- Numbers. A duration is an int64 of nanoseconds and a time an integer of nanoseconds since 1970; an
-- integer that the code converts keeps its wrap-around. time.ParseDuration runs on fuel one more than
-- the length of the text, and each round takes a character from it. Its floating-point step for
-- fractions is an argument, as are unicode.IsPrint above Latin-1 and the format of a time.
--
-- serveJetStream is modelled twice. Delivery.antt has each of its atomic actions as a step that
-- interleaves with Stop's, and Receive.antt has the whole function in sequence, with what it logs and
-- sends; the second is related to the first. In the second, what Stop does to the delivery while the
-- handler runs is an argument. abandonPending ranges over a list of addresses, which may be in any
-- order, and while it runs no other thread takes a step; Delivery/Pool.antt has the interleavings of all
-- deliveries, in which abandonPending copies its keys in one step and then goes on delivery by delivery,
-- while the callbacks take steps in between. Where a function reads c.sub by its address, the model has
-- the position of the subscription.
--
-- Stop is modelled twice too: by what it does, in Runtime/Lifecycle.antt, where the outcome of its drain
-- is an argument, and by how long it takes, in Runtime/Stopping.antt, where the times at which
-- connections, subscriptions, consumers and handlers end are arguments. Where the select
-- between the drain and the context finds both ready, its choice is an argument; where that of
-- waitSubscriptionsDrained does, the model takes the subscription. What the server answers to Start may
-- differ from receiver to receiver, but not between two with all fields the same. A network that
-- Exchange.antt takes a request over brings the reply back at a time, which is an argument; when it is
-- back just when the call's context expires, nothing is said of what the call returns.
--
-- Not modelled: the warning of a flush that fails during Stop; the ticker of the watch, of which a
-- tick is one call; the mutexes of the client and of the lifecycle, under which each call is a single
-- step here; accessors that return a field; a handler that changes, in the metadata it is given, the
-- message id that serveJetStream reads again for its last log line; doc.go; the texts of the log lines
-- that the examples and the commands print, and the signals that end them. In the command serve the
-- timer of -work is taken to start when the call begins.
pub mod Prelude
pub mod Go
pub mod Mesh
pub mod Errors
pub mod Target
pub mod Header
pub mod Config
pub mod JetStream
pub mod Dispatch
pub mod Delivery
pub mod Consumer
pub mod Client
pub mod Serve
pub mod Runtime
pub mod Receive
pub mod Exchange
pub mod Runbooks
pub mod Examples
pub mod Tests
