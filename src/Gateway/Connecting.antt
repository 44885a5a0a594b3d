-- ===== src/Gateway/Connecting.antt =====
-- Who may open a socket, and what opening and closing one does (src/chat/chat.gateway.ts,
-- src/auth/guards/ws-jwt.guard.ts). `verify` is the check of a token: what the token says, if it is good.
use swift_chat_backend.Base.{
  ℕ, Option, none, some, List, [], ◌∷◌, Action, Result, ok, err, pure, modify, ◌>>=◌, ◌>>◌, ◌==◌,
  if◌then◌else◌, remove,
}
use swift_chat_backend.Http.{plain, ws_exception, token_required, invalid_token, missing_token}
use swift_chat_backend.Db.{Db}
use swift_chat_backend.Group.{distinct}
use swift_chat_backend.Users.{find_by_id, AccountWithProfile}
use swift_chat_backend.Chat.Presence.{
  Presence, PresenceStatus, on_client_connected, on_client_disconnected, on_client_heartbeat,
  recorded, presence_targets,
}
use swift_chat_backend.Gateway.{
  Hub, Socket, account_room, socket_join, emit_to, on_world, presence_status,
}

-- `extractToken`: the token of the handshake, or the one after `Bearer` in its header.
abbrev pub extract_token : (auth_token bearer : Option ℕ) → Option ℕ
extract_token (some token) bearer = some token
extract_token none bearer = bearer

-- `JwtPayload`
pub record JwtPayload : Type 0 where
  pub sub : ℕ
  pub email : ℕ

-- `socket.data`
pub record SocketData : Type 0 where
  pub account_id : ℕ
  pub email : ℕ
  pub username : Option ℕ

abbrev pub username_or : (email : ℕ) → Result AccountWithProfile → ℕ
username_or email (ok a) = a.account.username
username_or email (err e) = email

abbrev pub accept : Option JwtPayload → Db → Result SocketData
accept none db = err (plain invalid_token)
accept (some p) db = ok (record {
  account_id = p.sub;
  email = p.email;
  username = some (username_or p.email (find_by_id p.sub db).0);
})

abbrev pub accept_token : (verify : ℕ → Option JwtPayload) → Option ℕ → Db → Result SocketData
accept_token verify none db = err (plain token_required)
accept_token verify (some token) db = accept (verify token) db

-- The middleware of `afterInit`.
unfoldable pub authenticate :
    (verify : ℕ → Option JwtPayload) → (auth_token bearer : Option ℕ) → Db → Result SocketData
authenticate verify auth_token bearer db = accept_token verify (extract_token auth_token bearer) db

abbrev pub guard_payload : Option JwtPayload → Result SocketData
guard_payload none = err (ws_exception invalid_token)
guard_payload (some p) = ok (record { account_id = p.sub; email = p.email; username = none })

abbrev pub guard_token : (verify : ℕ → Option JwtPayload) → Option ℕ → Result SocketData
guard_token verify none = err (ws_exception missing_token)
guard_token verify (some token) = guard_payload (verify token)

-- `WsJwtGuard.canActivate`: a socket that the middleware let in passes.
unfoldable pub can_activate :
    (verify : ℕ → Option JwtPayload)
    → Option SocketData
    → (auth_token bearer : Option ℕ) → Result SocketData
can_activate verify (some known) auth_token bearer = ok known
can_activate verify none auth_token bearer = guard_token verify (extract_token auth_token bearer)

abbrev pub with_presence : (account : ℕ) → Presence → Hub → Hub
with_presence a p h = record h { presences = λ b. if b == a then p else h.presences b }

-- `emitToUser`, for each of them.
abbrev pub tell_all : (account : ℕ) → PresenceStatus → List ℕ → Action Hub (Unit {0})
tell_all a status [] = pure tt
tell_all a status (target ∷ targets) =
    emit_to (account_room target) (presence_status a status) >> tell_all a status targets

abbrev pub tell : (account : ℕ) → PresenceStatus → Option (List ℕ) → Action Hub (Unit {0})
tell a status none = pure tt
tell a status (some targets) = tell_all a status (distinct targets)

-- `broadcastPresenceToContacts`, where there is something to tell.
abbrev pub broadcast : (account : ℕ) → Option PresenceStatus → Action Hub (Unit {0})
broadcast a none h = pure tt h
broadcast a (some status) h = tell a status (presence_targets a h.world.db) h

-- `handleConnection`
unfoldable pub handle_connection : (now : ℕ) → Socket → Action Hub (Unit {0})
handle_connection now s = do
  socket_join s (account_room s.account_id)
  told ← (λ h.
      let (told, p) = on_client_connected now (h.presences s.account_id) in
      (ok told, with_presence s.account_id p h))
  broadcast s.account_id told

-- A socket that closes leaves its rooms; then `handleDisconnect` runs.
unfoldable pub handle_disconnect : (now : ℕ) → Socket → Action Hub (Unit {0})
handle_disconnect now s = do
  modify (λ h. record h { joined = remove (λ j. j.socket.id == s.id) h.joined })
  told ← (λ h.
      let (told, p) = on_client_disconnected now (h.presences s.account_id) in
      (ok told, with_presence s.account_id p h))
  broadcast s.account_id told
  on_world (modify (λ w. record w { db = recorded now s.account_id told w.db }))

-- `handleHeartbeat`
unfoldable pub handle_heartbeat : (now : ℕ) → Socket → Action Hub (Unit {0})
handle_heartbeat now s =
    modify (λ h. with_presence s.account_id (on_client_heartbeat now (h.presences s.account_id)) h)
