-- ===== src/Lib.antt =====
-- A verification library of parts of OpenVR-PairDriver, a SteamVR driver and overlay.
--
-- Osc models the OSC wire format of the OSC router, modules/oscrouter/src/driver/OscWire.h and
-- OscWire.cpp: Osc.Packet is the template OscPacket, which writes a message into a fixed buffer;
-- Osc.Reader is OscReader with OscParseMessage; Osc.Bundle is OscDispatch; Osc.Pattern is
-- OscPatternMatch. A byte or a character is a number below 256, a C string the list of its characters
-- before the NUL, and an addition of size_t wraps at 2^64. OscDispatch and the pattern matcher run on
-- fuel: the length of the input and of the pattern, plus one, is enough, since each recursive call has
-- a shorter one.
--
-- Router models the router in the same directory: Router.Table is RouteTable.h and RouteTable.cpp,
-- Router.Queue the send queue of OscRouter.h with EnqueueLocked, Router.Stats the segment
-- OscRouterStatsShmem of core/src/common/Protocol.h, and Router.Driver the module OscRouter.cpp: the
-- handlers of its requests, a round of its send worker, and a frame of its publish pipe. A message goes
-- from BuildAndEnqueue, which uses the packet writer, through the queue to the send worker, which
-- parses it again and counts it on the routes whose pattern matches. Calls under the queue's mutex are
-- single steps. The socket, the clock and snprintf are inputs, and the memory that the source leaves
-- uninitialised is a parameter.
--
-- Supervisor models core/src/common/HostSupervisorBase.h and HostSupervisorBase.cpp: spawning, killing
-- and restarting the process of a feature host, one turn of the monitor thread (MonitorLoop) with what
-- other threads do in its waits and sleeps, the circuit breaker, and the cleanup of stale hosts. Each
-- answer of Windows is an input. A turn has the times of its clock and of the exit of the process;
-- WaitForSingleObject ends with the process if it exits within the timeout.
--
-- InputPath models core/src/common/inputhealth/PathClassifier.h, Pacer the ChatboxPacer of
-- modules/captions/src/host, and UpdateNotice core/src/overlay/UpdateNotice.cpp, with strtol and the
-- JSON reader as parameters. The pacer's times are numbers of clock ticks.
--
-- Calibration models three headers of modules/calibration/src/overlay: StateTransitions.h and
-- WatchdogDecisions.h, and in Calibration.Liveness TrackerLiveness.h, with whole milliseconds,
-- millimetres a second and micrometres in place of doubles.
--
-- Shmem models the shared memory segments of core/src/common/Protocol.h. Shmem.Seqlock is the seqlock
-- of a slot, WriteSlot and TryReadSlot of InputHealthSnapshotShmem, in steps of single loads and
-- stores that a schedule interleaves; each side sees the stores in the order they are made, the words of
-- a body are copied in ascending order, and a body is a list of words. Shmem.PoseRing is
-- DriverPoseShmem, and Shmem.FaceFrames is FaceTrackingFrameShmem, whose slots are read while no one
-- writes them.
--
-- FaceTracking models core/src/common/facetracking/UpstreamShapeMap.h with TranslateWireBody, for any
-- type of floats, with the names of the shapes in the enumerations UnifiedExpressions.cs and
-- UnifiedExpression.cs of modules/facetracking/src/host, and in FaceTracking.Worker the head of WorkerLoop of
-- modules/facetracking/src/driver/FacetrackingDriverModule.cpp, which reads the frames and restarts a
-- host whose heartbeat has stopped.
--
-- Ipc.Client models IpcClientBase of core/src/overlay. What Windows answers to each call is a function
-- of the calls before it, failed opens included, and no two calls of a kind have the same calls before
-- them, so it may be anything. Connect and SendBlocking call each other; while
-- reconnecting_ is set SendBlocking does not connect, so the recursion has three levels and no fuel is
-- needed. Ipc.Server is the driver's end, in core/src/driver: DetectFeatureFlags, the activation of
-- modules, HandleIpcRequest, and the callbacks of IPCServer for one pipe, with the modules as
-- parameters. Ipc.Handshake puts client and driver together.
--
-- Presence models PresenceComposer of core/src/overlay/DiscordPresenceComposer.cpp, with milliseconds
-- in place of seconds.
--
-- Captions models RouterPublisher of modules/captions/src/host, which writes chat texts to the publish
-- pipe. Each answer of Windows is an input: WriteFile may take a part of the bytes or fail at any call.
-- Captions.Publisher.Received puts it together with the router's end of the pipe. Captions.Gate is the
-- gate of the host's main loop, main.cpp in the same directory, which decides what is transcribed, and
-- Captions.Poller is HostStatusPoller of modules/captions/src/overlay. Captions.Config is the command
-- that the driver module builds of its configuration (modules/captions/src/driver), and its reading by
-- the host; the loop over its pairs has the length of the message as its fuel, and each round goes past
-- a character, so six rounds are always left for the six pairs.
--
-- InputHealth models the input health module without its mathematics: InputHealth.Compensation is the
-- store of ServerTrackedDeviceProvider, with InputPath for the paths; InputHealth.Stats and
-- InputHealth.Registry are the statistics of the components, their registration and their reset
-- (InputHealthComponentRegistry.cpp and InputHealthSnapshotStaging.cpp of
-- modules/inputhealth/src/driver); InputHealth.Publisher is InputHealthSnapshotPublisher.cpp with the
-- overlay's SnapshotReader; and InputHealth.Buttons is DetourUpdateBooleanComponent. Floats are bit
-- patterns there, a map is the list of its pairs, and serial numbers are a parameter.
--
-- Base holds what these share: Boolean tests, lists over the native numbers, maps, texts.
--
-- Not modelled: the solvers of the calibration, the smoothing, face tracking and input health
-- mathematics (floating point), audio and speech, the user interface, the calls of Windows, sockets,
-- reordered memory accesses, the C# host, scripts, and vendored libraries.
pub mod Base
pub mod Osc
pub mod Router
pub mod Supervisor
pub mod InputPath
pub mod Pacer
pub mod FaceTracking
pub mod Ipc
pub mod Presence
pub mod Shmem
pub mod UpdateNotice
pub mod Calibration
pub mod Captions
pub mod InputHealth
