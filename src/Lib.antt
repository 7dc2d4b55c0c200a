-- ===== src/Lib.antt =====
-- Receptor (github.com/ansible/receptor): an overlay network of nodes. This library models its mesh,
-- the package pkg/netceptor, with the framing below it and the helpers that it stands on, and the
-- work that it carries, the package pkg/workceptor.
--
-- A node (Netceptor) is connected to its neighbours by sessions. A session's protocol loop reads what
-- a neighbour sends: data messages, which are delivered to a listener, answered, or forwarded by the
-- routing table; routing updates, which tell the connections of a node to all nodes and are flooded;
-- and service advertisements, flooded as well. Two background loops drop what is old.
--
-- A unit of work is a directory with a status file and the output of its command. The node and the
-- process of the unit both update the status file under a lock. The control service makes units,
-- starts, cancels and releases them, and streams their results while the command writes. A unit on
-- another node is followed by two monitors, one of its status and one of its output.
--
--   Prelude             Shared names, Boolean tests, lists, maps and strings.
--   Framer              pkg/framer/framer.go, and the reading loop of netMessageConn in
--                       pkg/netceptor/external_backend.go.
--   Netceptor/State     The data of pkg/netceptor/netceptor.go. Field and constructor names are the
--                       source's; a connection's pointer is the number ident.
--   Netceptor/Wire      AddNameHash, GetNameFromHash, translateDataToMessage and -FromMessage.
--   Netceptor/Firewall  pkg/netceptor/firewall_rules.go.
--   Netceptor/Handle    handleMessageData and what it calls: forwardMessage, sendUnreachable,
--                       handlePing, handleUnreachable, SendMessageWithHopsToLive.
--   Netceptor/Routing   updateRoutingTable, over any priority queue that keeps the laws of QueueLaws.
--   Netceptor/Update    handleRoutingUpdate, sendRoutingUpdate, makeRoutingUpdate and flood.
--   Netceptor/Ads       Service advertisements: GetServiceInfo, AddLocalServiceAdvertisement,
--                       RemoveLocalServiceAdvertisement, sendServiceAds, handleServiceAdvertisement.
--   Netceptor/Connection  BackendInfo, removeConnection and sendRejectMessage.
--   Netceptor/Session   runProtocol as a state machine, one turn of its select at a time, and
--                       sendInitialConnectMessage.
--   Netceptor/Aging     monitorConnectionAging, expireSeenUpdates and protoReader, by turns.
--   Netceptor/Listener  pkg/netceptor/packetconn.go: ListenPacket, Close, ReadFrom, WriteTo.
--   Workceptor/State    The data of pkg/workceptor.
--   Workceptor/Status   The status file (workunitbase.go), with what fails in each update.
--   Workceptor/Command  pkg/workceptor/command.go: commandUnit with Start, runCommand, Restart, Cancel
--                       and Release, and commandRunner by turns.
--   Workceptor/Results  The loops of GetResults (workceptor.go), by turns.
--   Workceptor/Table    The table of units (workceptor.go) and BaseWorkUnit.Release, over any WorkUnit.
--   Workceptor/Signature  createSignature, ShouldVerifySignature, VerifySignature and processSignature.
--   Workceptor/Commands pkg/workceptor/controlsvc.go: the parameters, the two forms of a command, and
--                       ControlFunc with its effects in order.
--   Workceptor/Remote   pkg/workceptor/remote_work.go: monitorRemoteStatus and monitorRemoteStdout by
--                       turns, the messages on a lost connection, Status, startOrRestart and
--                       cancelOrRelease; StartRemoteUnit and cancelOrReleaseRemoteUnit, with
--                       what the connection does as an argument; and AllocateRemoteUnit
--                       (workceptor.go).
--   Controlsvc          RunControlSession of pkg/controlsvc/controlsvc.go, a line at a time, over any
--                       commands.
--   Controlsvc/Reload   pkg/controlsvc/reload.go: the reload command and its comparison of configurations.
--   Utils               pkg/tickrunner/tickrunner.go, and incremental_duration.go and broker.go of
--                       pkg/utils.
--
-- An operation takes the node's state and returns the new state with its effects in order: messages
-- to neighbours and listeners, and requests to the background loops. Locks make an operation one step.
-- Between two turns of a session the node may be in any state, and where the set-up of a connection
-- lets go of the locks, what the other sessions do to the node is an argument (Timing). Maps are association lists in any
-- order, so that a theorem holds for every iteration order. Times and connection costs are natural
-- numbers. Bytes, 16-bit lengths and 64-bit sequence numbers wrap around as in the source.
--
-- Fuel. handleMessageData, sendUnreachable and the ping service call one another, and the model counts
-- these calls: three are enough but for one kind of message. The search for routes counts its steps
-- by the fuel argument, and the bound depends on the costs and the number of nodes.
--
-- Parameters: the name hash (highwayhash), JSON texts, regular expressions, the priority queue, random
-- names, the float product of a backoff, the time, and what the operating system answers. JSON on a
-- status is a codec; theorems that need it to read back what it wrote say so. JSON web tokens are a
-- parameter too.
--
-- A function of the table of units that would wait for ever gives no result; random identifiers are a
-- list, and a search that uses them up gives no result either.
--
-- Not modelled: Kubernetes units, the start of processes, the control service's listeners and its
-- other commands, the proxies, the backends' sockets, QUIC streams, TLS and the command line. Logging has no part in the model.
pub mod Prelude
pub mod Framer
pub mod Netceptor
pub mod Workceptor
pub mod Controlsvc
pub mod Utils
