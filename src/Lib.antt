-- ===== src/Lib.antt =====
-- The cBridge relay node: a Go program that answers transfers between chains. A user locks tokens on a
-- source chain (a transfer out to the node); the node locks its own tokens for the user on the
-- destination chain (a transfer in), both under one hash lock. When the user claims the transfer in,
-- its preimage becomes public, and the node claims the transfer out with it. What is not claimed is
-- refunded once its time lock has passed.
--
-- The parts and how they interact. Monitors deliver the bridge contract's logs to four callbacks, which
-- record them in the table `transfer` of a database. Tickers run four jobs, which read rows of that
-- table, ask the contracts and a gateway about them, change the rows and send transactions. The table
-- is all that jobs and callbacks share. A fifth ticker reports balances to the gateway, and two HTTP
-- pages print what the table holds. At its start the process reads its flags and its configuration,
-- connects to the gateway, opens the database and the key store, registers the configured chains and
-- tokens, pings the gateway and sets up the monitors.
--
-- The files:
--   Base      tests, integers, maps and lists that all other files use
--   Wire      enums and messages of cbridgenode/cbridge_node.pb.go and gatewayrpc/gateway_rpc.pb.go
--   Transfer  rows of the table, `Transfer`, scanTransfers (server/dal.go), and time
--   World     the state that code acts on, and what is not the node's own code, as an environment
--   Exec      actions as sequences of effects, what an action keeps whatever happens in between
--             (Exec/Keeps, Exec/Views), what each of its effects does (Exec/Steps), through which phases
--             it goes (Exec/Outlines), where it ends alone (Exec/Ends), goroutines that take turns
--             (Exec/Threads), and what an action keeps given what others leave it (Exec/Relies)
--   Dal       server/dal.go: the statements, in Dal/Queries the queries, in Dal/Monitor the table
--             `monitor`, in Dal/Store the table as a map of ids to rows; below it what they do to a table
--   Chain     bridgeConfig of server/server.go: getTransfer, transferIn, confirm, refund
--   Gateway   server/gateway.go: GetFee, PingGateway
--   Server    server/server.go: Server/TransferOut and Server/Events are the monitors' callbacks
--             (monitorLogTransferOut, monitorLogTransferIn, monitorLogConfirm, monitorLogRefund),
--             Server/Send, Server/Confirm, Server/Refund and Server/Recover the jobs
--             (processTrySendTransferIn, processTryConfirmTransfer, processTryRefundTransferIn,
--             processRecoverTimeoutPending*); below each what it sends or keeps
--             Server/Init is NewServer and the part of Init that registers the chains, Server/Startup all
--             of Init with InitGatewayClient, NewDAL and the monitors, Server/Ping PingAndRefreshFee and
--             transactorOptions, Server/Shutdown Close, Server/Summary GetTotalSummary, Server/Listing
--             GetTransfer; in a module Text below each of the two what it writes
--   Layer1    layer1/eth_utils.go: what the monitors are given of a contract
--   Node      the node's handlers: of ticks, logs and page requests, with their effects interleaved
--             (Node/Threads); Node/Answered follows a transfer out, and
--             Node/Published a preimage, from a log to the next tick, and Node/Resumed a payment that is
--             tried again; Node/Typed is about what every row is like; in Node/Once ticks of the paying
--             job follow one another, as in their goroutine
--   Util      server/util.go: hex text, integers, hashes and addresses, and the key store
--   Main      server/main/main.go: the flags and the start of the process
--   Examples  concrete inputs and tests
--
-- How the model corresponds to the code. An operation of the source is an action on a `World`, in the
-- order of the source's effects; an early return or a `continue` is a branch that does nothing more.
-- Everything that is not this repository's code is a function in `Env`: the clock, whether the database
-- refuses a statement, sqldb.ChkExec and sqldb.ChkQueryRow, the contract's answers, the transactor,
-- the gateway's RPC client, the signer and SoliditySHA3. Its answers take the number of the effect, so
-- that any sequence of answers is possible; a theorem that needs more of one says so. A Go error is a
-- value of `Fault`: the code compares errors with nil and logs them. Logging is left out.
--
-- Bounds. Hashes and addresses are numbers instead of bytes; amounts are big.Int, so unbounded; uint64
-- and int64 wrap where the source computes in them (the power of ten of an amount's conversion, the
-- block of a view call, the seconds of a time lock); time is a number of nanoseconds. The digits of
-- a number, hexadecimal or decimal, are written on fuel, for which the number itself is given; no other
-- definition runs on fuel. Floating-point numbers are a parameter (`Floats` of Server/Summary/Text).
--
-- Goroutines. An action is a sequence of effects: a statement, a question or a transaction each. Run
-- alone (`perform`) its effects follow each other; in Node/Threads any handler that was started may have
-- the next effect. The predicates of Exec/Keeps speak of single effects, those of Exec/Ends of an action
-- that runs alone.
--
-- Start. What the process asks of its host and of libraries while it starts is a parameter (`Host` of
-- Util/KeyStore, `Services` of Server/Startup), as are the functions of go-ethereum in Util, whose
-- documented behaviour a theorem that relies on it takes as a hypothesis.
--
-- Not modelled: what closing of the database and of the connections does, the HTTP listener and the
-- printing of the version, the bodies of the generated code, the sleep between two tries of a
-- transaction, logging, and an iteration over rows that breaks off, for which the code does not ask
-- rows.Err(). The columns of the tables hold numbers instead of their texts.
pub mod Base
pub mod Wire
pub mod Transfer
pub mod World
pub mod Exec
pub mod Dal
pub mod Chain
pub mod Gateway
pub mod Server
pub mod Layer1
pub mod Node
pub mod Util
pub mod Main
pub mod Examples
