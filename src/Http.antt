-- ===== src/Http.antt =====
-- What the services throw, and the status that a client gets for it
-- (src/common/filters/all-exceptions.filter.ts).
use Prim.Native.Nat.{ℕ}

-- The messages of the exceptions.
pub data Reason : Type 0 where
  self_request receiver_not_found already_friends cannot_send_request pending_exists : Reason
  wait_hours : ℕ → Reason
  request_not_found already_processed not_receiver not_sender friendship_not_found : Reason
  self_block user_not_found already_blocked block_not_found : Reason
  partner_required self_conversation members_required invalid_type partner_not_found : Reason
  cannot_start conversation_not_found disbanded group_only not_a_member self_kick : Reason
  members_cannot_remove deputies_remove_members leader_must_resolve only_leader_disbands : Reason
  already_leader only_leader_transfers target_not_member only_leader_changes_roles : Reason
  cannot_assign_leader invalid_ids : Reason
  notification_not_found reply_deleted cannot_forward validation_failed duplicate_key
        too_late_to_unsend message_not_found :
      Reason
  permission_denied blocked_by_user undefined_property : Reason
  email_in_use username_taken mail_failed already_verified wait_a_minute invalid_request : Reason
  invalid_code otp_locked invalid_credentials use_google email_not_verified invalid_token : Reason
  revoked_token account_not_found invalid_google no_password_login invalid_reset_token : Reason
  no_password_set wrong_password token_required missing_token : Reason
  attempts_left : ℕ → Reason

pub data PrismaCode : Type 0 where
  -- P2002: a unique constraint
  unique_constraint : PrismaCode
  -- P2025: no row for an `update` or a `delete`
  record_not_found : PrismaCode
  -- P2003: a foreign key
  foreign_key : PrismaCode
  -- P2023: a value that its column cannot hold
  inconsistent_column : PrismaCode

pub data Error : Type 0 where
  bad_request unauthorized forbidden not_found conflict : Reason → Error
  prisma : PrismaCode → Error
  -- `WsException`
  ws_exception : Reason → Error
  -- a plain `Error`
  plain : Reason → Error

-- `AllExceptionsFilter.catch`: the status of the response.
unfoldable pub status : Error → ℕ
status (bad_request _) = 400
status (unauthorized _) = 401
status (forbidden _) = 403
status (not_found _) = 404
status (conflict _) = 409
status (prisma PrismaCode.unique_constraint) = 409
status (prisma PrismaCode.record_not_found) = 404
status (prisma PrismaCode.foreign_key) = 400
status (prisma PrismaCode.inconsistent_column) = 400
status (ws_exception _) = 500
status (plain _) = 500
