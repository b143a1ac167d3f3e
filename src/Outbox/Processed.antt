-- ===== src/Outbox/Processed.antt =====
-- The processed records of the outbox of app/odoo/outbox.py.
use chumma.Base.{
  ℕ, suc, String, ◌≡◌, refl, sym, ap, ◌∙◌, ◌≢◌, true, none, some, List, [], ◌∷◌, ◌==◌,
  if◌then◌else◌, ==_iff, if-cases, All,
}
use chumma.State.Tables.{find_row, modify_row, find_row-modify_row}
use chumma.Outbox.{
  OutboxStatus, OutboxRecord, record_id, Reply, is_due, selected, attempt, Drained, send,
  drain_outbox,
}
use chumma.Outbox.Progress.{
  IsKeyed, IsFound, selected-due, selected-IsFound, drain-IsKeyed, drains, attempt_id, due_open,
}

-- The records of other keys.
abbrev Others : ℕ → List OutboxRecord → Type 0
Others k = All (λ q. q.id ≢ k)

others :
    (k : ℕ) (r : OutboxRecord) (rs qs : List OutboxRecord)
    → find_row record_id k rs ≡ some r
    → r.status ≡ OutboxStatus.processed
    → All (IsFound rs) qs
    → All (λ q. is_due q ≡ true) qs
    → Others k qs
others k r rs [] found done h d = tt
others k r rs (q ∷ qs) found done (h, hs) (d, ds) = (
  λ e. due_open q d (
      ap (λ (z : OutboxRecord). z.status)
        (same (sym h ∙ ap (λ i. find_row record_id i rs) e ∙ found))
      ∙ done),
  others k r rs qs found done hs ds,
)
  where
    same : some q ≡ some r → q ≡ r
    same f = cc

modify_other :
    (j k : ℕ) (reply : Reply) (now : ℕ) (rs : List OutboxRecord) (r : OutboxRecord)
    → j ≢ k
    → find_row record_id k rs ≡ some r
    → find_row record_id k (modify_row record_id j (attempt reply now) rs) ≡ some r
modify_other j k reply now rs r other found =
    find_row-modify_row record_id j k (attempt reply now) rs (attempt_id reply now)
    ∙ ap (λ o. elim o [ none ↦ none | some x ↦ some (if j == k then attempt reply now x else x) ])
        found
    ∙ if-cases (λ x. some x ≡ some r) (j == k) (attempt reply now r) r
        (λ e. absurd (other ((==_iff j k).0 e))) (λ _. refl)

module _ {S : Type 0} (call : String → String → String → S → S × Reply) where
  send_other :
      (k now : ℕ) (r : OutboxRecord) (qs : List OutboxRecord) (d : Drained S)
      → Others k qs
      → find_row record_id k d.records ≡ some r
      → find_row record_id k (send call now qs d).records ≡ some r
  unfolding send
  send_other k now r [] d h found = found
  send_other k now r (q ∷ qs) d (h, hs) found = send_other k now r qs _ hs (
      modify_other q.id k (call q.method q.args_json q.kwargs_json d.odoo).1 now d.records r h
        found)

  drain_other :
      (limit k now : ℕ) (s : S) (r : OutboxRecord) (rs : List OutboxRecord)
      → IsKeyed rs
      → find_row record_id k rs ≡ some r
      → r.status ≡ OutboxStatus.processed
      → find_row record_id k (drain_outbox call limit now s rs).records ≡ some r
  unfolding drain_outbox
  drain_other limit k now s r rs keyed found done =
      send_other k now r (selected limit rs) _
        (others k r rs (selected limit rs) found done (selected-IsFound limit rs keyed)
          (selected-due limit rs))
        found

  -- A record of the outbox that is processed stays as it is in all later drains, if the keys are
  -- distinct.
  pub processed_stays :
      (limit k : ℕ) (times : List ℕ) (s : S) (r : OutboxRecord) (rs : List OutboxRecord)
      → IsKeyed rs
      → find_row record_id k rs ≡ some r
      → r.status ≡ OutboxStatus.processed
      → find_row record_id k (drains call limit times s rs) ≡ some r
  processed_stays limit k [] s r rs keyed found done = found
  processed_stays limit k (now ∷ times) s r rs keyed found done =
      processed_stays limit k times _ r _ (drain-IsKeyed call limit now s rs keyed)
        (drain_other (suc limit) k now s r rs keyed found done) done
