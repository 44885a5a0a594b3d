-- ===== src/Group/Tests.antt =====
-- Examples for the properties of groups.
use swift_chat_backend.Base.{◌≡◌, refl, inl, List, [], ◌∷◌, arith, ok, count}
use swift_chat_backend.Db.{Db, ConversationType, deputy, member}
use swift_chat_backend.Samples.{chats, conversation}
use swift_chat_backend.Group.Counting.{leads}
use swift_chat_backend.Group.Leadership.{update_member_role}
use swift_chat_backend.Group.Invariant.{IsLed}
use swift_chat_backend.Group.Calls.{Call, add, kick, leave, transfer, change_role, run}
use swift_chat_backend.Group.Leaders.{run-IsLed}
use swift_chat_backend.Group.SelfDemotion.{update_member_role-on_self}

abbrev calls : List Call
calls =
    transfer 1 7 2
    ∷ leave 1 7
    ∷ change_role 2 7 3 deputy
    ∷ kick 2 7 3
    ∷ add 40 2 7 (1 ∷ 3 ∷ [])
    ∷ []

chats-IsLed : IsLed 7 chats.participants
chats-IsLed = record { once = λ a. ground arith; led = inl refl }

run-IsLed_example : IsLed 7 (run calls chats).participants
run-IsLed_example =
    run-IsLed 7 calls chats (tt, (tt, ((λ h. ground (arith, h)), (tt, (tt, tt))))) chats-IsLed

update_member_role-on_self_example :
    let (result, db') = update_member_role 1 7 1 member chats in
    (result ≡ ok tt) × (count (leads 7) db'.participants ≡ 0)
update_member_role-on_self_example =
    update_member_role-on_self 7 1 member chats
      (conversation 7 ConversationType.group, refl, refl, refl) chats-IsLed refl refl

-- The group after its leader 1 became a member.
abbrev leaderless : Db
leaderless = (update_member_role 1 7 1 member chats).1
