-- ===== src/Notifications/Unread.antt =====
-- The unread notifications of app/services/notification_service.py.
use chumma.Base.{
  ℕ, zero, suc, ◌+◌, ◌≡◌, refl, ap, ◌≢◌, Bool, true, List, [], ◌∷◌, map, arith, length, keep_if,
}
use chumma.Base.{take}
use chumma.Base.Sort.{sort_by}
use chumma.State.{Notification, World}
use chumma.Notifications.{
  is_unread, is_shown, read_for, newer, get_user_notifications, mark_all_as_read,
}

none_unread :
    (r : ℕ) (ns : List Notification) → keep_if (is_shown r true) (map (read_for r) ns) ≡ []
none_unread r [] = refl
none_unread r (n ∷ ns) = ground (arith, none_unread r ns)

others_shown :
    (r j : ℕ) (unread_only : Bool) (ns : List Notification)
    → j ≢ r
    → keep_if (is_shown j unread_only) (map (read_for r) ns) ≡ keep_if (is_shown j unread_only) ns
others_shown r j u [] h = refl
others_shown r j u (n ∷ ns) h = ground (arith, h, others_shown r j u ns h)

still_unread :
    (r : ℕ) (ns : List Notification)
    → length (keep_if is_unread (map (read_for r) ns)) + length (keep_if (is_shown r true) ns)
      ≡ length (keep_if is_unread ns)
still_unread r [] = refl
still_unread r (n ∷ ns) = ground (arith, still_unread r ns)

take_nothing : (n : ℕ) (ns : List Notification) → ns ≡ [] → take n ns ≡ []
take_nothing zero ns e = refl
take_nothing (suc n) ns e = ap (take (suc n)) e

module _ {S : Type 0} where
  -- After a user has marked all notifications as read, the user has no unread ones, another user's
  -- are listed as before, and the returned count is the number of unread notifications that are
  -- gone from the table.
  pub mark_all_outcome :
      (r j limit : ℕ) (unread_only : Bool) (w : World S)
      → j ≢ r
      → (get_user_notifications r true limit (mark_all_as_read r w).1 ≡ [])
        × (get_user_notifications j unread_only limit (mark_all_as_read r w).1
            ≡ get_user_notifications j unread_only limit w)
        × (length (keep_if is_unread (mark_all_as_read r w).1.notifications)
              + (mark_all_as_read r w).0
            ≡ length (keep_if is_unread w.notifications))
  unfolding get_user_notifications mark_all_as_read sort_by
  mark_all_outcome r j limit u w h = (
    take_nothing limit _ (ap (sort_by newer) (none_unread r w.notifications)),
    ap (λ ns. take limit (sort_by newer ns)) (others_shown r j u w.notifications h),
    still_unread r w.notifications,
  )
