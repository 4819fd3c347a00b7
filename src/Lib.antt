-- ===== src/Lib.antt =====
-- A verification library of the ComBox backend (Go): chats, calls and privacy behind HTTP and
-- WebSocket. Modelled here are the live call subsystem, internal/calls, the
-- privacy service, internal/service/privacy, the login codes, internal/service/emailcode, and of the
-- chat service, internal/service/chat, the members, the moderation, the polls, the folders, the
-- journal and deletion.
--
-- The parts. A signaling connection (session.go) parses frames (protocol.go) and asks the hub
-- (hub.go), which keeps the rooms: who is in a call, its topology (mesh, SFU, broadcast), the server
-- side peers and the routing table of forwarded tracks (sfu.go). The hub tells clients through the
-- `Sender` of each participant, and the store and the notifier through their interfaces.
--
-- The files.
--   Prelude          shared names; Dict is Go's map with string keys, Chosen the loops that pick
--                    ids, Text is strings.TrimSpace and other functions on text.
--   Calls.Errors     errors.go; an error of this package or a foreign one.
--   Calls.Types      types.go; kinds, topologies and roles are strings as in the source.
--   Calls.Protocol   protocol.go: Envelope, ParseEnvelope, validate; Protocol.Valid has its theorems.
--   Calls.Tracks     sfu.go: normalizeTrackKey, normalizeTrackSource and their kin.
--   Calls.Room       hub.go: the Room, and each stretch of code under its lock as one function:
--                    register (Join), leave_section (Leave), end_section (End), discard_section,
--                    media_section (UpdateMedia), tracks_section (SetTrackSources). Room.Invariant,
--                    Room.Joining and Room.Leaving are about what they do.
--   Calls.Routes     sfu.go: addRoute, removeRoute, removeRoutesFor, fanout, sourceFor; Routes.Laws.
--   Calls.Hub        hub.go: the registry and End, forget, discardRoom; Hub.Join is Join and
--                    resolveRoom, Hub.Leave is Leave, Decline and CloseAll, Hub.Signals is Relay,
--                    UpdateMedia, SetTrackSources, ensurePeer and PeerFor. The Sound modules are
--                    about the rooms that each operation leaves, Hub.Runs about interleavings of
--                    critical sections, Hub.Ending, Hub.Leave.Peers and Hub.Leave.Parting about what ends
--                    and closes, Hub.Join.Opened and Hub.Join.Refused about a join that is refused.
--   Calls.Session    session.go: Send, the gate of a join and writeFrame; Session.Gate.
--   Calls.History    history.go: ListChatCalls, DeleteChatCall; History.Projection is about the feed, on
--                    History.Distinct, which is about dedupeIDs.
--   Calls.Tests      each theorem at a concrete input.
--   Privacy.Types    types.go of the privacy service: parameters, rules, rows, errors.
--   Privacy.Service  service.go: Evaluate and what it calls, with the memo of a call chain passed
--                    on explicitly. Service.Keys, Service.Memoised and Service.Decisions are about
--                    the memo, Service.Rules about the decision. Service.Settings is normalizeIDs,
--                    Get and Set; its children Normal, Saving and Reading have their theorems.
--   Privacy.Tests    each theorem at a concrete input.
--   EmailCode        emailcode/service.go: sendCode, VerifyCode, ConsumeVerified and the maps they
--                    share; EmailCode.Keys is IssueLoginKey, ValidateLoginKey, ConsumeLoginKey.
--                    EmailCode.Stages and EmailCode.Runs are about the stages of an address in any
--                    run of calls, EmailCode.Guessing and EmailCode.Locked about wrong guesses,
--                    EmailCode.Verifying about a code that is sent and entered.
--   EmailCode.Spec   what the email codes promise: one stage for each address, without maps and
--                    pruning. Spec.Relation says which maps stand for which stages, Spec.Codes and
--                    Spec.Keys follow each operation, Spec.Runs any calls.
--   EmailCode.Tests  each theorem at a concrete input.
--   Chat.Base        the chat service's errors, and an operation as a function from the store of the
--                    repositories to the store that it leaves and a result; Chat.Steps reasons about
--                    operations step by step.
--   Chat.Access      the roles, ensureChatMember and ensureChatReadableForViewer.
--   Chat.Events      service_chat_events.go: the journal; Events.Payload is about its payloads.
--   Chat.Members     ListMembers, AddMembers, UpdateMemberRole, RemoveMember; Members.Authority is
--                    about who may do what, Members.Owner about the owner. Chat.Moderation is the bans and
--                    mutes of a channel, and leaving it.
--   Chat.Polls       service_polls.go: the checks of a poll and of a ballot; Polls.Checks is about
--                    ballots. Polls.View is buildPollView, with Polls.Tally about the counting and
--                    View.Secrecy and View.Voter about what is hidden and shown. Polls.Voting is GetPoll,
--                    VotePoll, ClosePoll, with Voting.Recast about the ballots after a vote.
--   Chat.Folders     service_chat_folders.go, with its theorems in Folders.Contents.
--   Chat.Deletion    service_delete_chat.go; Deletion.Outcome is about how DeleteChat ends.
--   Chat.Tests, Polls.Tests, Folders.Tests and Deletion.Tests apply each theorem at concrete chats.
--
-- How the state corresponds. A hub is a record; rooms and peers are pointers into a heap of the hub,
-- a function from numbers, so that a room that is off the registry is still there for who holds it.
-- A participant's connection is a number, compared as the source compares Sender pointers. What the
-- hub sends, stores and announces is appended to its log: the store's errors change nothing but the
-- logger, which is not modelled. The uuid of a new room is an argument of join. Times are numbers
-- that the hub reads from its own clock field. Numbers such as the limits are natural: the
-- configuration replaces what is not positive before the hub sees it. Maps are association lists;
-- Go's iteration order is open, and the models take the order of the list.
--
-- An operation of the hub runs its critical sections one after the other. Concurrent operations are
-- the subject of Hub.Runs, whose steps are single critical sections at any room, in any order.
--
-- Parameters: the membership and publishing checks, whether the media stack makes a peer, the error
-- of a connection's write, the JSON decoder, the repository of the privacy service, uuid.Parse,
-- and of the email codes strings.ToLower, net/mail and sha256; random values are arguments.
-- For the chat service the repositories are records of functions over a store of any type: a read
-- answers or fails, a write leaves a new store, also where it fails. Also parameters there are
-- strings.ToLower and EqualFold, uuid.Parse, and the permutation that math/rand gives for a poll and a
-- viewer. Its percentages are exact where the source's floats are, below 2 ^ 40 ballots.
-- What the privacy repository answers does not change within a call chain. Nothing else is assumed of them
-- but where a theorem says so. No recursion needs fuel: loops run over lists.
--
-- Not modelled: session handlers, the SFU's negotiation and forwarding, of the chat service the
-- messages, the making of chats, channels and polls, invites, profiles and export, and the rest of the backend
-- (HTTP handlers, SQL and Valkey repositories, the other services, wiring and tools).
pub mod Prelude
pub mod Calls
pub mod Privacy
pub mod EmailCode
pub mod Chat
