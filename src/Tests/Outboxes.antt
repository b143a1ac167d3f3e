-- ===== src/Tests/Outboxes.antt =====
-- An outbox with a call that was taken and one that Odoo refuses twice.
use chumma.Base.{
  ℕ, ◌+◌, ◌≡◌, refl, String, none, some, List, [], ◌∷◌, keep_if, ltb, arith, if◌then◌else◌,
}
use chumma.Base.Sort.{sort_by, insert_by}
use chumma.State.Tables.{find_row}
use chumma.Outbox.{
  OutboxStatus, OutboxRecord, Reply, is_due, record_id, queue_mutation, drain_outbox, selected,
  send,
}
use chumma.Outbox.Progress.{drains, outbox_settles, IsKeyed}
use chumma.Outbox.Processed.{processed_stays}

-- The state counts the calls; the first two fail.
abbrev refusing : String → String → String → ℕ → ℕ × Reply
refusing method args kwargs n = (n + 1, if ltb n 2 then Reply.raised else Reply.returned)

abbrev taken : OutboxRecord
taken = record {
  id = 1;
  method = "set_governance";
  args_json = "[40]";
  kwargs_json = "{}";
  status = OutboxStatus.processed;
  attempts = 1;
  processed_at = some 3;
  created_at = 0;
}

abbrev outbox : List OutboxRecord
outbox = queue_mutation 2 5 "confirm_order" (some "[41]") none (taken ∷ [])

abbrev times : List ℕ
times = 6 ∷ 7 ∷ 8 ∷ 9 ∷ 10 ∷ 11 ∷ 12 ∷ 13 ∷ 14 ∷ 15 ∷ []

outbox-IsKeyed : IsKeyed outbox
outbox-IsKeyed = (((λ e. omega (arith, e)), tt), (tt, tt))

outbox_settles_example : keep_if is_due (drains refusing 49 times 0 outbox) ≡ []
outbox_settles_example = outbox_settles refusing 49 times 0 outbox outbox-IsKeyed (omega arith)

processed_stays_example : find_row record_id 1 (drains refusing 49 times 0 outbox) ≡ some taken
processed_stays_example =
    processed_stays refusing 49 1 times 0 taken outbox outbox-IsKeyed refl refl

-- The call that is refused twice is taken at the third drain.
third_drain :
    find_row record_id 2 (drains refusing 49 (6 ∷ 7 ∷ 8 ∷ []) 0 outbox)
    ≡ some (record {
      id = 2;
      method = "confirm_order";
      args_json = "[41]";
      kwargs_json = "{}";
      status = OutboxStatus.processed;
      attempts = 3;
      processed_at = some 8;
      created_at = 5;
    })
unfolding drain_outbox selected send sort_by insert_by
third_drain = refl
