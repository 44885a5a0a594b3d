-- ===== src/Push/Tests.antt =====
-- Examples for the properties of the push messages.
use swift_chat_backend.Base.{ℕ, ◌≡◌, refl, true, not, ◌&&◌, Option, some, List, [], ◌∷◌, ◌==◌, any}
use swift_chat_backend.Db.{Db, DeviceToken}
use swift_chat_backend.Samples.{chats}
use swift_chat_backend.Push.{
  PushResponse, not_registered, is_device, send_push_to_offline_participants,
}
use swift_chat_backend.Push.TargetLaws.{is_target, reaches, send_push-targets}

abbrev device : (account token : ℕ) → DeviceToken
device a token = record { account_id = a; token = token; platform = 1 }

abbrev with_devices : Db
with_devices = record chats { device_tokens = device 1 61 ∷ device 2 62 ∷ device 3 63 ∷ [] }

abbrev respond : ℕ → List ℕ → Option (List PushResponse)
respond a tokens = some (not_registered ∷ [])

-- 1 sends to group 7, where 2 is offline and 3 is online.
send_push-targets_example :
    let (sent, db') =
      send_push_to_offline_participants true respond (λ a. a == 3) 50 7 1 with_devices in
    let is_sent = any (λ t. t == 62) sent in
    (is_sent ≡ (
      true
      && any
          (λ p. is_target (λ a. a == 3) 50 7 1 p && reaches 62 with_devices p)
          with_devices.participants))
    × ((any (is_device 62) db'.device_tokens && not is_sent)
        ≡ (any (is_device 62) with_devices.device_tokens && not is_sent))
send_push-targets_example = send_push-targets true respond (λ a. a == 3) 50 7 1 62 with_devices

-- The message goes to the device of 2, which Firebase does not know any more.
sends :
    send_push_to_offline_participants true respond (λ a. a == 3) 50 7 1 with_devices
    ≡ (62 ∷ [], record with_devices { device_tokens = device 1 61 ∷ device 3 63 ∷ [] })
unfolding send_push_to_offline_participants
sends = refl
