-- ===== src/Push.antt =====
-- `FcmService` (src/fcm/fcm.service.ts): the devices of an account, and push messages. `ready` says whether
-- the Firebase library was set up; `respond` is what it answers for the devices of an account: none where
-- the call throws. `is_online` says whether the `presence:` key of an account is there.
pub mod Devices
pub mod TargetLaws
mod Tests
use swift_chat_backend.Base.{
  ℕ, Bool, true, false, not, ◌&&◌, Option, none, some, List, [], ◌∷◌, ◌++◌, map, Action, modify,
  ◌==◌, leb, if◌then◌else◌, any, select, remove, update,
}
use swift_chat_backend.Http.{Error, PrismaCode}
use swift_chat_backend.Db.{Db, DeviceToken, Participant}
use swift_chat_backend.Group.{in_conversation}

abbrev pub is_device : (token : ℕ) → DeviceToken → Bool
is_device token d = d.token == token

abbrev pub handed_to : (account platform : ℕ) → DeviceToken → DeviceToken
handed_to a platform d = record d { account_id = a; platform = platform }

abbrev pub new_device : (account token platform : ℕ) → DeviceToken
new_device a token platform = record { account_id = a; token = token; platform = platform }

-- `registerDevice`
unfoldable pub register_device : (account token platform : ℕ) → Action Db (Unit {0})
register_device a token platform = modify (λ db. record db {
  device_tokens =
      if any (is_device token) db.device_tokens
      then update (is_device token) (handed_to a platform) db.device_tokens
      else new_device a token platform ∷ db.device_tokens;
})

-- `removeDevice`: a token that is not there is ignored.
unfoldable pub remove_device : (token : ℕ) → Action Db (Unit {0})
remove_device token =
    modify (λ db. record db { device_tokens = remove (is_device token) db.device_tokens })

-- What Firebase answers for one token.
pub data PushResponse : Type 0 where
  delivered invalid_registration_token not_registered other_error : PushResponse

abbrev pub is_invalid : PushResponse → Bool
is_invalid delivered = false
is_invalid invalid_registration_token = true
is_invalid not_registered = true
is_invalid other_error = false

-- The tokens to clean up.
abbrev pub invalid_tokens : List ℕ → List PushResponse → List ℕ
invalid_tokens (t ∷ tokens) (r ∷ responses) =
    let rest = invalid_tokens tokens responses in if is_invalid r then t ∷ rest else rest
invalid_tokens _ _ = []

abbrev pub dead_tokens : List ℕ → Option (List PushResponse) → List ℕ
dead_tokens tokens none = []
dead_tokens tokens (some responses) = invalid_tokens tokens responses

abbrev pub tokens_of : (account : ℕ) → Db → List ℕ
tokens_of a db = map (λ d. d.token) (select (λ d. d.account_id == a) db.device_tokens)

abbrev pub remove_devices : List ℕ → Action Db (Unit {0})
remove_devices tokens = modify (λ db. record db {
  device_tokens = remove (λ d. any (λ t. d.token == t) tokens) db.device_tokens;
})

-- `participants`: those of the conversation but the sender.
abbrev pub other_participants : (conversation sender : ℕ) → Db → List Participant
other_participants c sender db =
    select (λ p. in_conversation c p && not (p.account_id == sender)) db.participants

-- `p.mutedUntil === null || p.mutedUntil <= now`
abbrev pub is_unmuted : (now : ℕ) → Participant → Bool
is_unmuted now p = elim p.muted_until [ none ↦ true | some until ↦ leb until now ]

-- `presenceResults`: what `mget` answers, one for each participant.
abbrev pub presence_results : (is_online : ℕ → Bool) → List Participant → List Bool
presence_results is_online rows = map (λ p. is_online p.account_id) rows

-- `filter((_, idx) => !presenceResults[idx])`
abbrev pub without_present : List Participant → List Bool → List Participant
without_present [] results = []
without_present (p ∷ rows) [] = p ∷ rows
without_present (p ∷ rows) (present ∷ results) =
    let rest = without_present rows results in if present then rest else p ∷ rest

abbrev pub told_participants :
    (is_online : ℕ → Bool) → (now conversation sender : ℕ) → Db → List Participant
told_participants is_online now c sender db =
    let notify_participants = select (is_unmuted now) (other_participants c sender db) in
    without_present notify_participants (presence_results is_online notify_participants)

-- The pushes of all of them, which are started at once.
abbrev pub all_tokens : List Participant → Db → List ℕ
all_tokens [] db = []
all_tokens (p ∷ rows) db = tokens_of p.account_id db ++ all_tokens rows db

module _ (ready : Bool) (respond : (account : ℕ) → List ℕ → Option (List PushResponse)) where
  -- `sendPushToUser`: the tokens that the message goes to.
  unfoldable pub send_push_to_user : (account : ℕ) → Db → List ℕ × Db
  send_push_to_user a db =
      if ready
      then (
        tokens_of a db,
        (remove_devices (dead_tokens (tokens_of a db) (respond a (tokens_of a db))) db).1,
      )
      else ([], db)

  abbrev pub all_dead : List Participant → Db → List ℕ
  all_dead [] db = []
  all_dead (p ∷ rows) db =
      let tokens = tokens_of p.account_id db in
      dead_tokens tokens (respond p.account_id tokens) ++ all_dead rows db

  -- `sendPushToOfflineParticipants`: the tokens that the message goes to.
  unfoldable pub send_push_to_offline_participants :
      (is_online : ℕ → Bool) → (now conversation sender : ℕ) → Db → List ℕ × Db
  send_push_to_offline_participants is_online now c sender db =
      let told = told_participants is_online now c sender db in
      if ready then (all_tokens told db, (remove_devices (all_dead told db) db).1) else ([], db)
