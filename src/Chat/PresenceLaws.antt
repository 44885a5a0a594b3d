-- ===== src/Chat/PresenceLaws.antt =====
-- The presence of an account follows its open sockets, as long as the keys are renewed in time.
use swift_chat_backend.Base.{
  ℕ, zero, suc, ◌+◌, ◌<◌, ◌≡◌, refl, not, none, some, arith, ◌==◌, leb, ap, ◌∙◌, if◌then◌else◌,
}
use swift_chat_backend.Chat.Presence.{
  Presence, presence_ttl, online, offline, on_client_connected, on_client_disconnected,
  on_client_heartbeat, is_online, new_key,
}

-- The keys after the sockets of an account were opened and closed, from none: how many are open, and
-- when the keys were renewed last. With a socket open, every step comes before
-- the keys expire.
pub data Sockets : (sockets renewed : ℕ) → Presence → Type 0 where
  start : (t : ℕ) → Sockets 0 t (record { conn_count = none; presence = none })
  idle : (t later : ℕ) (p : Presence) → Sockets 0 t p → Sockets 0 later p
  connect :
      (n t now : ℕ) (p : Presence)
      → Sockets n t p
      → now < t + presence_ttl
      → Sockets (suc n) now (on_client_connected now p).1
  disconnect :
      (n t now : ℕ) (p : Presence)
      → Sockets (suc n) t p
      → now < t + presence_ttl
      → Sockets n t (on_client_disconnected now p).1
  heartbeat :
      (n t now : ℕ) (p : Presence)
      → Sockets (suc n) t p
      → now < t + presence_ttl
      → Sockets (suc n) now (on_client_heartbeat now p)

-- The keys of an account with that many open sockets.
abbrev pub keys_of : (sockets renewed : ℕ) → Presence
keys_of zero t = record { conn_count = none; presence = none }
keys_of (suc n) t = record { conn_count = new_key t (suc n); presence = new_key t 1 }

connected :
    (n t now : ℕ)
    → now < t + presence_ttl
    → (on_client_connected now (keys_of n t)).1 ≡ keys_of (suc n) now
unfolding on_client_connected
connected zero t now lt = ground arith
connected (suc n) t now lt = ground arith

disconnected :
    (n t now : ℕ)
    → now < t + presence_ttl
    → (on_client_disconnected now (keys_of (suc n) t)).1 ≡ keys_of n t
unfolding on_client_disconnected
disconnected zero t now lt = ground arith
disconnected (suc n) t now lt = ground arith

renewed :
    (n t now : ℕ)
    → now < t + presence_ttl
    → on_client_heartbeat now (keys_of (suc n) t) ≡ keys_of (suc n) now
unfolding on_client_heartbeat
renewed n t now lt = ground arith

Sockets-keys : (n t : ℕ) (p : Presence) → Sockets n t p → p ≡ keys_of n t
Sockets-keys _ _ _ (start t) = refl
Sockets-keys _ _ _ (idle t later p r) = Sockets-keys 0 t p r
Sockets-keys _ _ _ (connect n t now p r lt) =
    ap (λ q. (on_client_connected now q).1) (Sockets-keys n t p r) ∙ connected n t now lt
Sockets-keys _ _ _ (disconnect n t now p r lt) =
    ap (λ q. (on_client_disconnected now q).1) (Sockets-keys (suc n) t p r)
    ∙ disconnected n t now lt
Sockets-keys _ _ _ (heartbeat n t now p r lt) =
    ap (on_client_heartbeat now) (Sockets-keys (suc n) t p r) ∙ renewed n t now lt

-- While the keys are renewed in time, an account is online exactly while it has a socket open; the
-- contacts are told "online" at the first socket only, and "offline" at the last only.
pub presence-Sockets :
    (n t now : ℕ) (p : Presence)
    → Sockets n t p
    → now < t + presence_ttl
    → (is_online now p ≡ not (n == 0))
      × (((on_client_connected now p).0 ≡ (if n == 0 then some online else none))
          × ((on_client_disconnected now p).0 ≡ (if leb n 1 then some offline else none)))
unfolding on_client_connected on_client_disconnected
presence-Sockets n t now p r lt = rw (Sockets-keys n t p r) (told n lt)
  where
    told :
        (k : ℕ)
        → now < t + presence_ttl
        → (is_online now (keys_of k t) ≡ not (k == 0))
          × (((on_client_connected now (keys_of k t)).0 ≡ (if k == 0 then some online else none))
              × ((on_client_disconnected now (keys_of k t)).0
                  ≡ (if leb k 1 then some offline else none)))
    told zero lt = ground arith
    told (suc k) lt = ground arith
