-- ===== src/Lib.antt =====
-- zvonok: a video meeting service. Its server decides who is in which room and with which powers,
-- relays messages and media between the members of a room, streams or records rooms, and reports
-- what happens there to the endpoints of projects; its client library joins rooms, sends and
-- receives media, recovers from breaks of the connection, keeps the participants, judges the
-- quality of their streams and asks for the layers that fit it.
--
-- The library follows the program's own parts.
-- - Prelude: tests, lists, texts and the maps of texts that stand for the `Map` and `Set` objects
--   of the code (association lists, in insertion order; a set is a list without repeats).
-- - Json: the values of JSON, which carry token payloads, participants' metadata and bodies.
-- - Capabilities (apps/server/src/sfu/capabilities.ts): the roles and what each may do.
-- - Auth: the credentials of a socket. Jwt holds the parameters, Cookies the cookie header,
--   RoomToken and Minting `RoomTokenHelper` (apps/server/src/platform/room-token.helper.ts) and
--   Identity `resolveRoomSocketIdentity` and `verifyGuestToken` (apps/server/src/auth/helpers/).
-- - Presence (apps/server/src/sfu/room-presence.service.ts), the service that the media layer, the
--   gateway and the webhooks hang on. State has a field for each `Map` of the class and the list of
--   what it has sent out (`effects`: socket events, adapter rooms, timers, handlers, webhooks).
--   Rooms holds the indexes, the fan-out and `depart`; Join `join`; Control `holdSeat`,
--   `expireHeldSeat`, `kick`, `lockRoom` and `endRoom`; Lookup the queries and subscriptions. Each
--   operation is a function from a state to a state; the code between two awaits is one step. As
--   `join` awaits the database after it has checked the lock, its later part is a function of its
--   own, `admit`, which a run may take in a later state. Members, Seats, Invariant and Reach treat
--   the agreement of the maps; Steps, Moderation, Locks, Ending, Restore, Grace, Expiry, Authority,
--   Moves and Lookups what the operations do.
-- - Broadcast (apps/server/src/sfu/sfu-broadcast.service.ts): the data channel, over the presence
--   service; Broadcast.Reach says whom a fan-out reaches.
-- - Media (apps/server/src/sfu/sfu.service.ts and worker-manager.ts): the media of the members over
--   the presence service. Pool is the pool of workers with their routers; State has the fields of
--   `SfuService`, with the presence service's state among them and the list of the calls to the
--   media library. Producers is `createProducer`, Closing `closeProducerForPeer` and `detachMedia`,
--   Muting the pauses and the host's mutes, Consumers transports, consumers and taps, Joining
--   `joinRoom` and the subscriptions, Sessions what comes with departures: presence tells the media
--   layer of a departure before the record goes and of the end of a room, and both calls are made
--   where they happen. `createProducer` awaits the media library once, so it is `begin_produce` and
--   `finish_produce`. Balance treats the pool, Guards and Screens producing, Silence muting; Quiet,
--   Spares and Leaving what a departure leaves alone; Frames, Attached, Mild, Receiving, Entries
--   and Reach follow the two services together through a run.
-- - Egress (apps/server/src/egress/): the sessions that stream or record a room. Inputs is the
--   order of inputs of ffmpeg/args-composer.ts, Ports `allocatePort`, Targets the screening of RTMP
--   targets, Pipeline the pipeline with its restarts and ends, Service `start`, `stop`, boot and
--   shutdown. The sessions are kept after they left the service's map, as the handlers and pending
--   calls keep them; a process is a number. Frames, Failing and Stops hold the lemmas on one start
--   of a pipeline; Order, Restarts, Endings, Late, Cascade and Screening what is shown. Output is
--   `LineBuffer` and the error output kept by ffmpeg/ffmpeg-process.ts, which Lines and Tail treat.
-- - Webhooks (apps/server/src/webhooks/): Queue is webhook-queue.ts, with a chain of promises as
--   the list of the deliveries that have not settled and an attempt as what it comes to; Dispatch
--   is webhook-dispatcher.service.ts, which takes the webhooks that Presence sends out, with the
--   outcome of a POST from webhook-delivery.service.ts; Retries and Fifo treat the queue.
-- - Pagination (apps/server/src/platform/pagination.helper.ts): the pages of a list; Walk is a
--   client that follows their cursors.
-- - Client (packages/client/src/): Registry and Detach are sfu/participant-registry.ts, Quality
--   sfu/quality-score.ts and Capture media/capture-state.ts.
-- - Session (packages/client/src/sfu/): a client's session over the participants of Client. State
--   has the fields of `SfuManager` (manager.ts) and of its units, and the list of what they call of
--   the socket, the media library and the callbacks of the application. Publish and Producers are
--   `SfuPublish` (publish.ts) with `singleFlight` (helpers/concurrency.ts), Subscribe
--   `SfuSubscribe` (subscribe.ts), Recovery `SfuSession` (session.ts) with the teardown of
--   manager.ts, Facade the rest of manager.ts with `SfuConnection` (connection.ts) and two handlers
--   of actions.ts. A function that awaits is two steps: `begin_flight` and `finish_flight` for
--   `doProduceTrack`, `begin_load` and `finish_load` for `loadDevice`, `begin_refresh` and
--   `finish_refresh` for `refreshTokenAndRejoin`, `begin_consumer` and `finish_consumer` for
--   `handleConsumerCreated`. Other steps come between. Core, Mild, Receiving, Quiet, Sound, Events,
--   Answers and Endings go through what each step leaves alone or keeps, Runs through every run;
--   Queue, Broken, Blip, Rate, Races and Sharing treat the buffered calls, a break of the
--   connection, the limit on rejoins, late answers and calls that share a run.
-- - Layers (packages/react/src/core/peer-quality-engine.ts): the layer of each camera that a page
--   asks for, by the scores of Client. Engine has the fields of `PeerQualityEngine`, the timers
--   that are set and `scheduleLayerSwitch`, Statistics the callbacks that `bind` registers, `bind`
--   and `unbind`, and `polls`, in which statistics come at a steady pace. Timers, Settled, Changes,
--   Answers, Following and Runs follow the timers and the layers through a run, Entries and
--   Starving a steady pace.
--
-- Parameters: the signing and verification of a JWT and the configuration (`Services`), the rows
-- and queries of the database, the texts of cursors, the clock, the POST request, the byte size of
-- a JSON text, what the media library answers to the server and to the client, the producers that
-- can be tapped and whether a tap opens, the addresses of a host, which tracks of a browser have
-- not ended (`live`), `atob` with `JSON.parse` (`decode`), what a token provider answers, and in
-- Layers which consumer carries a user's camera (`camera_of`). A handler, a timer, a track, a call
-- of `produce` and a run of it are numbers, a socket is its id. Room ids are the database's: not
-- empty and without a colon (`IsRoomId`). A token without the claims that the server itself writes
-- counts as one that does not verify. Packet loss is counted in tenths of a percent. The
-- constructor of the media library's device is taken not to throw. Every loop of the code is over a
-- finite list and is structural recursion here. Fuel stands in the walk over pages, where more than
-- the number of rows is enough, and in `drain`, which cuts a text into lines and has fuel for each
-- of its code units, of which every line takes at least one.
--
-- Not modelled: of the media layer `openTap` and what a transport or consumer tells of itself; of
-- egress the files, the arguments of FFmpeg, how its process is spawned and stopped, the list and
-- view of a session and the gateway; of the client's session `replaceTrack`, the acknowledged
-- requests of actions.ts, the statistics, the registration of callbacks and of socket listeners,
-- and the callbacks that are told of every new state; chat, the stores of accounts, developers and
-- meetings, and the user interfaces but for the choice of layers; the functions that take a handler
-- off again; the signature of a webhook; logging.
pub mod Prelude
pub mod Json
pub mod Capabilities
pub mod Auth
pub mod Presence
pub mod Broadcast
pub mod Media
pub mod Egress
pub mod Webhooks
pub mod Pagination
pub mod Client
pub mod Session
pub mod Layers
