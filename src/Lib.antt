-- ===== src/Lib.antt =====
-- The chat backend (a NestJS server): accounts sign in with a password or with Google, befriend and
-- block each other, talk in direct and group conversations, and are notified. PostgreSQL (through
-- Prisma) holds accounts, profiles, tokens, friendships, requests, blocks, conversations, participants and
-- notifications; MongoDB (through Mongoose) holds the messages, the recent ones and an archive; Redis
-- caches lists and holds the presence.
--
-- Parts, and the files that model them:
-- - Base: results and calls (`Action`: the state goes in and comes out, also where a call throws), rows
--   of a table and the queries on them, sorting, and lemmas on lists. Http: what the services throw
--   (src/common/filters/all-exceptions.filter.ts gives each its status).
-- - Db: the tables of prisma/schema.prisma, the Redis lists and the socket events, as one record.
-- - Block (src/block/block.service.ts): `block_user` is `blockUser`, and so on: a function has the
--   name of its method in snake_case throughout.
-- - Friends (src/friends/friends.service.ts): Sending, Answering and Listing hold the methods. Calls
--   joins them with the calls of Block to sequences; the other children hold what is proved.
-- - Group (src/conversations/group-member.service.ts): Members and Leadership hold the methods, Calls
--   their sequences.
-- - Conversations (src/conversations/conversations.service.ts): the methods, and Creating; Listing and
--   Pages (also src/conversations/conversation-list.helpers.ts): the list of conversations; Deleting
--   (src/conversations/conversations.controller.ts): the delete of a group or of a conversation of two.
-- - Users (src/user/user.service.ts): accounts, Profiles (the profile cache, passwords), Searching.
-- - Notifications (src/notifications/notifications.service.ts).
-- - Messages (src/messages/messages.service.ts, src/messages/message-archiving.service.ts): the
--   changes of a message, Sending (`create`), Reacting, Reading (pages, search, counts), Archiving.
-- - Push (src/fcm/fcm.service.ts): devices, and whom a push message goes to.
-- - Chat (src/chat/chat.service.ts): the calls of a socket, which use all of these, and Presence.
-- - Gateway (src/chat/chat.gateway.ts): sockets, rooms and deliveries; Connecting, Handlers, and
--   Requests, which joins the handlers.
-- - Auth (src/auth/auth.service.ts, src/auth/auth-password.service.ts,
--   src/auth/token-cleanup.service.ts): Registration, Sessions, Passwords and Cleanup; Calls joins them
--   with the calls of Users to sequences.
-- - Samples: the data of the examples, which stand in each part's Tests.
--
-- How the code is read. A method is a function of its arguments, of the time `now` (milliseconds) and
-- of the ids that the database draws. `$transaction` takes back its writes where it throws; what was
-- written outside one stays. A foreign key, a unique key and a missing row are errors of the database.
-- An id is a number: of a UUID and of an ObjectId only order and equality are used, and each is
-- spelled as the code prints it. The message that a request unsends is an `IdText`, since the code reads
-- the text as an ObjectId and also compares it as a text. The calls of one
-- sequence run one after the other; two calls that run at once are not modelled. A page, a list or an
-- event is its ids, without the profiles that the answers carry.
--
-- Loops on fuel: `archive_from` (fuel: the size of the collection and one, as each batch takes a
-- message from it) and `load_friends` (the number of friendships and one, as each batch but the last
-- has a hundred). Both are shown to have enough. `follow` is a client that follows the cursors of the
-- list of conversations, on more fuel than there are conversations. The loop of `create` that draws a
-- handle until one is free is `draw_handle`, on the handles that are drawn: more different ones than
-- there are profiles are enough. The other calls take the handle that the loop ends with.
--
-- What is not in the repository is a parameter: `accepts` (whether Mongoose takes a text for a required
-- path), `timestamp` (the time in an ObjectId), `matches` (the regular expression of a search),
-- `contains` and `Query` (whether PostgreSQL finds a text in another), `digest`, `hash` and `compare`
-- (the hashes of Node and bcrypt), `payload` and `verify` (what a token says, if it is good), `mailed`
-- (whether a mail went out), `ready` and `respond` (Firebase). `is_online` says whether the `presence:`
-- key of an account is there, where a part does not hold the keys itself.
--
-- Not modelled: mail, uploads and health checks, which are input and output through libraries; the
-- controllers, modules and DTOs, which hand a request on, but for the delete of a conversation; the
-- throttler and Passport.
pub mod Http
pub mod Base
pub mod Db
pub mod Notifications
pub mod Block
pub mod Friends
pub mod Group
pub mod Conversations
pub mod Messages
pub mod Auth
pub mod Chat
pub mod Push
pub mod Gateway
pub mod Samples
pub mod Users
