-- ===== src/Push/Devices.antt =====
-- Whose device a token is (src/fcm/fcm.service.ts).
use swift_chat_backend.Base.{
  ℕ, ◌≡◌, refl, inl, inr, false, ◌&&◌, List, [], ◌∷◌, arith, ◌==◌, any, update, Bool-cases,
}
use swift_chat_backend.Db.{Db, DeviceToken}
use swift_chat_backend.Push.{is_device, handed_to, register_device}
use swift_chat_backend.Push.TargetLaws.{owns}

any-handed :
    (a b token platform : ℕ) (rows : List DeviceToken)
    → any (owns b token) (update (is_device token) (handed_to a platform) rows)
      ≡ (b == a && any (is_device token) rows)
any-handed a b token platform [] = ground arith
any-handed a b token platform (d ∷ rows) = ground (arith, any-handed a b token platform rows)

no_owner :
    (b token : ℕ) (rows : List DeviceToken)
    → any (is_device token) rows ≡ false
    → any (owns b token) rows ≡ false
no_owner b token [] e = refl
no_owner b token (d ∷ rows) e = ground (arith, e, no_owner b token rows)

-- A device belongs to the account that registered it last: afterwards its token is one of that account,
-- and of no other, whoever had it before.
pub register_device-owner :
    (a b token platform : ℕ) (db : Db)
    → any (owns b token) (register_device a token platform db).1.device_tokens ≡ (b == a)
unfolding register_device
register_device-owner a b token platform db =
    elim (Bool-cases (any (is_device token) db.device_tokens)) [
      | inl e ↦ ground (arith, e, any-handed a b token platform db.device_tokens)
      | inr e ↦ ground (arith, e, no_owner b token db.device_tokens e)
    ]
