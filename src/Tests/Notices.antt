-- ===== src/Tests/Notices.antt =====
-- A manager's notifications and a customer's.
use chumma.Base.{ℕ, ◌+◌, ◌≡◌, true, false, some, none, [], ◌∷◌, length, keep_if, arith}
use chumma.State.{Notification, NotificationType, World}
use chumma.State.Tables.{create_notification}
use chumma.Notifications.{get_user_notifications, mark_all_as_read, is_unread}
use chumma.Notifications.Unread.{mark_all_outcome}
use chumma.Notifications.Keys.{IsUnique, create-IsUnique}
use chumma.Tests.Governance.{start}

abbrev notice : Notification
notice = record {
  id = 5;
  recipient = 10;
  type = NotificationType.negotiation_received;
  entity_id = 1;
  is_read = false;
  dedupe_key = some 3;
  created_at = 1;
}

abbrev noticed : World ℕ
noticed = record start {
  notifications = notice ∷ record notice { id = 6; recipient = 20; dedupe_key = none } ∷ [];
}

noticed-IsUnique : IsUnique noticed
noticed-IsUnique k = ground arith

mark_all_outcome_example :
    (get_user_notifications 10 true 50 (mark_all_as_read 10 noticed).1 ≡ [])
    × (get_user_notifications 20 false 50 (mark_all_as_read 10 noticed).1
        ≡ get_user_notifications 20 false 50 noticed)
    × (length (keep_if is_unread (mark_all_as_read 10 noticed).1.notifications)
          + (mark_all_as_read 10 noticed).0
        ≡ length (keep_if is_unread noticed.notifications))
mark_all_outcome_example = mark_all_outcome 10 20 50 false noticed (λ e. omega (arith, e))

create-IsUnique_example :
    IsUnique (create_notification 10 NotificationType.negotiation_received 1 (some 3) 9 noticed)
create-IsUnique_example =
    create-IsUnique 10 NotificationType.negotiation_received 1 (some 3) 9 noticed noticed-IsUnique
