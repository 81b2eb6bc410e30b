-- ===== src/Lib.antt =====
-- The NPLN server of the repository: matchmaking, game sessions, the documents they share and the
-- identity of callers.
--
-- The server keeps one registry of game sessions, which two gRPC services share under one lock. The
-- matchmaker places the users of a ticket in a pooled public session (matchmaking.go); the game session
-- service opens rooms by creation tickets (matchmaking.go) and lets users look up, query, join and list
-- sessions (session_service.go). A departure removes a user from a session and closes it when it was the
-- last (session_registry.go). The users of a session share documents, which a write changes as one
-- transaction (gamesync_store.go); when its streams have ended, a timer ends a session, and the user
-- departs. Every call first establishes its caller from a signed token. Beside them stand two UDP
-- services for the peers of a session: STUN (stun.go) and a NAT check (nncs.go).
--
-- Base          lists, texts, maps, integers, status codes and results that the other files share
-- Names         resource names: lastResourceSegment, userIDFromPath, concreteResource, validSessionName
-- Proto         the structs of proto/common and proto/matchmaking/v1 that the services use
-- Attributes    the map of a MapValue and matchmakingStringAttribute
-- Auth          bearerToken, uidFromCtx, authenticatedNPLNUID, canonicalFriendUIDs
-- Tokens        gamesyncAttrJSON, gamesyncLatencyJSON and mintGssMatchToken
-- Registry      sessionRegistry with sessionHasUID, member and depart
-- Sessions      roomVisible, safeSessionView, matchedForCaller and the checks of session_service.go
-- Server        the state of matchmakerServer and gameSessionServer, and what a call is given
-- Matchmaking   pools, their keys and capacities, addPublicMatchMembers
-- Pools         newPublicMatchSessionLocked and selectPublicMatchSessionLocked
-- Tickets       CreateMatchmakingTicket, TrackMatchmakingTicket, CancelMatchmakingTicket
-- Rooms         CreateGameSessionCreationTicket, TrackGameSessionCreationTicket
-- Service       GetGameSession, BatchGetGameSessions, QueryGameSessions, JoinGameSession
-- UserSessions  IssueMatchmakingIdToken, ListUserSessions, GetUserSession
-- Gamesync      documents of a game session: paths, masks, ownership, transforms and WriteDocuments
--               (gamesync_store.go); reads and lists (gamesync_reads.go); tokens and sessions
--               (authorizedSession, IssueToken, rememberSession), targets, subscribers and
--               KeepUserSession (gamesync.go), streams, timers and expireSession (gamesync_store.go)
-- Bytes         big-endian words in byte slices, net.IP, and exclusive or
-- Stun          stunBindingResponse (stun.go)
-- Nncs          configuredNNCS, startNNCSServer and the replies of readLoop (nncs.go)
-- Invariant     what holds of the shared state between calls; Invariant/Steps has the calls as steps
-- Examples      small inputs and the theorems applied to them
--
-- How the model reads the code. A text is a native string; what protobuf and HTTP/2 hand over is valid
-- UTF-8. A Go map is an association list; where the source ranges over one it sorts the keys or does not
-- depend on the order. A pointer to a GameSession or a publicMatchSession that the services share is named
-- by its key in the registry, under which it is put when it is made and from which it is never taken out;
-- `pooled[id].gameSession` is `sessions[id]`. An int32, int64 or uint64 wraps where the source's does. The
-- texts of error messages and the log lines are left out; status codes are kept. What a handler does
-- between locking and unlocking is one step of the state; a handler that locks twice is given the effect
-- of the other calls in between as a function. A streaming call answers the list of its messages.
-- Structural recursion covers every loop but two: `decimal` is given a number of fuel larger than the
-- number itself, and the loop over the attributes of a STUN request is given the length of the request,
-- of which each round takes four bytes at least. A byte is a number, a byte slice a list of them. A timer
-- of gamesync is named by a number, which the next one made exceeds; its delay is left out, and it may go
-- off at any time. The recorder of the NAT check is there. Gamesync/Calls has the calls and the timers of
-- gamesync as steps, cut where the code releases its lock.
--
-- Parameters: the clock (nanoseconds for names and creation times, seconds for tokens), the settings
-- from the environment, the JSON encoder, net.ParseIP, CRC-32, the ES256 signature and its
-- check, the decoding of a payload, the friends of a caller, and proto.Equal. A bind succeeds and a
-- stream takes what it is sent. Not modelled: IssueToken without a registry, messaging, friends and
-- presence, the lists of ICE and latency servers, the observer of datagrams, the authentication service
-- that issues access tokens, the stores, start-up and transport, and generated code beyond the structs
-- above.
pub mod Attributes
pub mod Auth
pub mod Base
pub mod Bytes
pub mod Examples
pub mod Gamesync
pub mod Invariant
pub mod Matchmaking
pub mod Names
pub mod Nncs
pub mod Pools
pub mod Proto
pub mod Registry
pub mod Rooms
pub mod Server
pub mod Service
pub mod Sessions
pub mod Stun
pub mod Tickets
pub mod Tokens
pub mod UserSessions
