-- ===== src/Users/Calls.antt =====
-- The calls of `UserService` that change the tables, the cache or both, and sequences of them.
use swift_chat_backend.Base.{ℕ, Bool, List, [], ◌∷◌, Action, pure, ◌>>=◌}
use swift_chat_backend.Db.{Db}
use swift_chat_backend.Users.{NewAccount, create}
use swift_chat_backend.Users.Profiles.{
  UpdateProfile, update_profile, update_last_seen, get_user_profile, change_password,
}

pub data Call : Type 0 where
  sign_up : (now id handle : ℕ) → NewAccount → Call
  edit : (account : ℕ) → UpdateProfile → Call
  leave : (now account : ℕ) → Call
  read : (now account : ℕ) → Call
  new_password : (compare : ℕ → ℕ → Bool) → (account current new_hash : ℕ) → Call

-- A call, with its value left out.
unfoldable pub call : Call → Action Db (Unit {0})
call (sign_up now id handle dto) = create now id handle dto >>= λ _. pure tt
call (edit a dto) = update_profile a dto >>= λ _. pure tt
call (leave now a) = update_last_seen now a
call (read now a) = get_user_profile now a >>= λ _. pure tt
call (new_password compare a current new_hash) = change_password compare a current new_hash

-- The state after a call, whether it returned or threw.
abbrev pub step : Call → Db → Db
step c db = (call c db).1

unfoldable pub run : List Call → Db → Db
run [] db = db
run (c ∷ calls) db = run calls (step c db)
