-- ===== src/Chat/Presence.antt =====
-- The presence of an account (src/chat/chat.service.ts): its Redis keys `conn_count:` and `presence:`,
-- each with the time at which it expires, and the accounts that are told of a change.
use swift_chat_backend.Base.{
  ℕ, zero, suc, ◌+◌, ◌-◌, ◌*◌, Bool, not, ◌&&◌, Option, none, some, List, ◌++◌, map, ◌==◌, ltb, leb,
  if◌then◌else◌, is_some, any, select, length,
}
use swift_chat_backend.Db.{Db, Participant}
use swift_chat_backend.Users.Profiles.{update_last_seen}
use swift_chat_backend.Group.{is_key}
use swift_chat_backend.Conversations.{is_undeleted}
use swift_chat_backend.Friends.Listing.{get_friend_ids_batch}

-- A key of Redis that expires.
pub record Key : Type 0 where
  pub value : ℕ
  pub expires_at : ℕ

-- The two keys of one account; the value of `presence:` is always `online`.
pub record Presence : Type 0 where
  pub conn_count : Option Key
  pub presence : Option Key

-- What is sent to the contacts.
pub data PresenceStatus : Type 0 where
  online offline : PresenceStatus

-- `PRESENCE_TTL_SECONDS`, in milliseconds
abbrev pub presence_ttl : ℕ
presence_ttl = 120 * 1000

-- A key that is not expired.
abbrev pub live : (now : ℕ) → Option Key → Option Key
live now none = none
live now (some k) = if ltb now k.expires_at then some k else none

abbrev pub value_of : Option Key → ℕ
value_of none = 0
value_of (some k) = k.value

-- `EXPIRE` on a key: nothing happens where the key is gone.
abbrev pub expire : (now : ℕ) → Option Key → Option Key
expire now none = none
expire now (some k) = some (record k { expires_at = now + presence_ttl })

abbrev pub new_key : (now value : ℕ) → Option Key
new_key now value = some (record { value = value; expires_at = now + presence_ttl })

-- `onClientConnected`: what is told to the contacts, if anything.
unfoldable pub on_client_connected : (now : ℕ) → Presence → Option PresenceStatus × Presence
on_client_connected now p =
    let new_count = value_of (live now p.conn_count) + 1 in
    if new_count == 1
    then (some online, record { conn_count = new_key now new_count; presence = new_key now 1 })
    else (
      none,
      record { conn_count = new_key now new_count; presence = expire now (live now p.presence) },
    )

-- `DECR`, which keeps the time of expiry.
abbrev pub decremented : Option Key → Option Key
decremented none = none
decremented (some k) = some (record k { value = k.value - 1 })

-- The script of `onClientDisconnected`: with a count of 1 or less, or none, both keys go.
unfoldable pub on_client_disconnected : (now : ℕ) → Presence → Option PresenceStatus × Presence
on_client_disconnected now p =
    if leb (value_of (live now p.conn_count)) 1
    then (some offline, record { conn_count = none; presence = none })
    else (
      none,
      record { conn_count = decremented (live now p.conn_count); presence = live now p.presence },
    )

-- After the last socket `lastSeen` is written, and an error of that is logged.
abbrev pub recorded : (now account : ℕ) → Option PresenceStatus → Db → Db
recorded now a none db = db
recorded now a (some _) db = (update_last_seen now a db).1

-- `onClientHeartbeat`
unfoldable pub on_client_heartbeat : (now : ℕ) → Presence → Presence
on_client_heartbeat now p = record {
  conn_count = expire now (live now p.conn_count);
  presence = expire now (live now p.presence);
}

abbrev pub is_online : (now : ℕ) → Presence → Bool
is_online now p = is_some (live now p.presence)

-- `PRESENCE_BROADCAST_BATCH_SIZE`
abbrev pub broadcast_batch_size : ℕ
broadcast_batch_size = 100

-- The loop over the batches of friends, on fuel; none where the fuel ran out.
abbrev pub load_friends : (fuel account skip : ℕ) → Db → Option (List ℕ)
load_friends zero a skip db = none
load_friends (suc fuel) a skip db =
    let ids = get_friend_ids_batch a skip broadcast_batch_size db in
    let rest = load_friends fuel a (skip + broadcast_batch_size) db in
    if ltb (length ids) broadcast_batch_size
    then some ids
    else elim rest [ none ↦ none | some more ↦ some (ids ++ more) ]

-- Whether the account is in a conversation that is not deleted.
abbrev pub shares : (account : ℕ) → Db → Participant → Bool
shares a db p =
    not (p.account_id == a)
    && (any (is_key p.conversation_id a) db.participants && is_undeleted p.conversation_id db)

-- `broadcastPresenceToContacts`: whom the status is sent to. The code puts them in a set.
unfoldable pub presence_targets : (account : ℕ) → Db → Option (List ℕ)
presence_targets a db =
    let friends = load_friends (suc (length db.friends)) a 0 db in
    elim friends [
      | none ↦ none
      | some ids ↦ some (ids ++ map (λ p. p.account_id) (select (shares a db) db.participants))
    ]
