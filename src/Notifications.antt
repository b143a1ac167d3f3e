-- ===== src/Notifications.antt =====
-- app/services/notification_service.py: a user's notifications, and their reading. The creation is
-- `create_notification` of the tables.
pub mod Unread
pub mod Keys
use chumma.Base.{
  subst, ℕ, zero, suc, ◌+◌, ◌-◌, ◌*◌, ◌/◌, ◌%◌, ◌^◌, ◌≤◌, ◌<◌, String, ◌≡◌, refl, sym, ap, ◌∙◌, ◌≢◌,
  ◌↔◌, ◌⊎◌, inl, inr, Bool, true, false, not, ◌&&◌, ◌||◌, Option, none, some, List, [], ◌∷◌, ◌++◌,
  map, arith, ltb, leb, ◌==◌, if◌then◌else◌, leb→le, ==_iff, ==_refl, Bool-cases, Option-cases,
  if-cases, is_some, length, keep_if, any, all, find_first, sum_of, All, sum_of-append,
  length-append, All-append, All-keep_if,
}
use chumma.Base.{take}
use chumma.Base.Sort.{sort_by}
use chumma.State.{Notification, World}
use chumma.State.Tables.{modify_row}

abbrev pub notification_id : Notification → ℕ
notification_id n = n.id

abbrev pub is_for : ℕ → Notification → Bool
is_for recipient n = n.recipient == recipient

abbrev pub is_unread : Notification → Bool
is_unread n = not n.is_read

abbrev pub is_shown : ℕ → Bool → Notification → Bool
is_shown recipient unread_only n = is_for recipient n && (if unread_only then is_unread n else true)

abbrev pub newer : Notification → Notification → Bool
newer a b = ltb b.created_at a.created_at

abbrev pub set_read : Notification → Notification
set_read n = record n { is_read = true }

abbrev pub read_for : ℕ → Notification → Notification
read_for recipient n = if is_for recipient n && is_unread n then set_read n else n

module _ {S : Type 0} where
  -- The newest first; those of one time in the order of the table.
  unfoldable pub get_user_notifications : ℕ → Bool → ℕ → World S → List Notification
  get_user_notifications recipient unread_only limit w =
      take limit (sort_by newer (keep_if (is_shown recipient unread_only) w.notifications))

  abbrev pub find_own : ℕ → ℕ → World S → Option Notification
  find_own key recipient w = find_first (λ n. (n.id == key) && is_for recipient n) w.notifications

  unfoldable pub mark_as_read : ℕ → ℕ → World S → Bool × World S
  mark_as_read key recipient w = elim (find_own key recipient w) [
    | none ↦ (false, w)
    | some n ↦ (
      true,
      record w { notifications = modify_row notification_id n.id set_read w.notifications },
    )
  ]

  unfoldable pub mark_all_as_read : ℕ → World S → ℕ × World S
  mark_all_as_read recipient w = (
    length (keep_if (is_shown recipient true) w.notifications),
    record w { notifications = map (read_for recipient) w.notifications },
  )
