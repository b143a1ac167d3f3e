-- ===== src/Notifications/Keys.antt =====
-- The keys by which app/services/notification_service.py makes no notification twice.
use chumma.Base.{
  subst, ℕ, ◌+◌, ◌≤◌, ◌≡◌, refl, sym, ap, Bool, true, false, Option, none, some, List, [], ◌∷◌,
  arith, ◌==◌, ==_iff, if-cases, any, sum_of, sum_of-append,
}
use chumma.Approval.Counts.{one_if}
use chumma.State.{Notification, NotificationType, World}
use chumma.State.Tables.{has_key, is_duplicate, create_notification}

abbrev with_key : ℕ → List Notification → ℕ
with_key k = sum_of (λ n. one_if (has_key k n))

absent : (k : ℕ) (ns : List Notification) → any (has_key k) ns ≡ false → with_key k ns ≡ 0
absent k [] e = refl
absent k (n ∷ ns) e = ground (arith, e, absent k ns)

own_key :
    (f : ℕ → ℕ) (j k : ℕ) (b : Bool)
    → (b ≡ true → j ≡ k)
    → f j ≡ 0
    → f k ≤ 1
    → f k + (one_if b + 0) ≤ 1
own_key f j k true same none_yet h = omega (arith, ap f (same refl), none_yet)
own_key f j k false same none_yet h = omega (arith, h)

module _ {S : Type 0} where
  -- No two notifications have one key.
  abbrev pub IsUnique : World S → Type 0
  IsUnique w = (k : ℕ) → with_key k w.notifications ≤ 1

  -- The creation of a notification, with a key or without one, never makes a second one of a key.
  pub create-IsUnique :
      (recipient : ℕ) (kind : NotificationType) (entity : ℕ) (key : Option ℕ) (now : ℕ)
      (w : World S)
      → IsUnique w
      → IsUnique (create_notification recipient kind entity key now w)
  unfolding create_notification
  create-IsUnique recipient kind entity none now w h k =
      omega (arith, h k, sum_of-append (λ n. one_if (has_key k n)) w.notifications (made none ∷ []))
    where
      made : Option ℕ → Notification
      made key = record {
        id = w.next_id;
        recipient = recipient;
        type = kind;
        entity_id = entity;
        is_read = false;
        dedupe_key = key;
        created_at = now;
      }
  create-IsUnique recipient kind entity (some j) now w h k =
      if-cases (λ (v : World S). with_key k v.notifications ≤ 1)
        (is_duplicate (some j) w.notifications) w _ (λ _. h k)
        (λ e.
          subst (λ c. c ≤ 1) (sym (sum_of-append (λ n. one_if (has_key k n)) w.notifications _))
            (own_key (λ i. with_key i w.notifications) j k (j == k) (==_iff j k).0
              (absent j w.notifications e) (h k)))
