-- ===== src/Outbox/Progress.antt =====
-- What the drains of the outbox of app/odoo/outbox.py come to.
use chumma.Base.{
  subst, ℕ, zero, suc, ◌+◌, ◌-◌, ◌*◌, ◌≤◌, ◌<◌, String, ◌≡◌, refl, sym, ap, ◌∙◌, ◌≢◌, ◌⊎◌, inl, inr,
  Bool, true, false, ◌&&◌, some, List, [], ◌∷◌, map, arith, ltb, ◌==◌, if◌then◌else◌, ==_iff,
  ==_refl, if-cases, length, keep_if, sum_of, All, All-keep_if,
}
use chumma.Base.{take, All-take, Distinct}
use chumma.Base.Sort.{sort_by, insert_by, All-sort_by}
use chumma.State.Tables.{find_row, modify_row}
use chumma.Outbox.{
  processed_one, OutboxStatus, OutboxRecord, record_id, Reply, is_due, older, selected, attempt,
  Drained, send, drain_outbox,
}

-- The keys are distinct, as the primary key of the table is.
abbrev pub IsKeyed : List OutboxRecord → Type 0
IsKeyed rs = Distinct (map record_id rs)

-- The attempts that a record has left.
abbrev pub attempts_left : OutboxRecord → ℕ
attempts_left r = 5 - r.attempts

abbrev left_in : List OutboxRecord → ℕ
left_in = sum_of attempts_left

due_below : (r : OutboxRecord) → is_due r ≡ true → r.attempts < 5
due_below r h = ground arith

-- A record is the one that its key finds.
abbrev pub IsFound : List OutboxRecord → OutboxRecord → Type 0
IsFound rs r = find_row record_id r.id rs ≡ some r

later :
    (r : OutboxRecord) (rs qs : List OutboxRecord)
    → All (λ m. r.id ≢ m) (map record_id qs)
    → All (IsFound rs) qs
    → All (IsFound (r ∷ rs)) qs
later r rs [] h k = tt
later r rs (q ∷ qs) (h, hs) (k, ks) = (
  if-cases (λ o. o ≡ some q) (r.id == q.id) _ _ (λ e. elim (h ((==_iff r.id q.id).0 e)) [ ])
      (λ _. k),
  later r rs qs hs ks,
)

keyed-IsFound : (rs : List OutboxRecord) → IsKeyed rs → All (IsFound rs) rs
keyed-IsFound [] h = tt
keyed-IsFound (r ∷ rs) (h, hs) = (
  ap (λ b. if b then some r else find_row record_id r.id rs) (==_refl r.id),
  later r rs rs h (keyed-IsFound rs hs),
)

all_due : (rs : List OutboxRecord) → All (λ r. is_due r ≡ true) (keep_if is_due rs)
all_due [] = tt
all_due (r ∷ rs) =
    if-cases (λ qs. All (λ q. is_due q ≡ true) qs) (is_due r) (r ∷ keep_if is_due rs)
      (keep_if is_due rs) (λ e. (e, all_due rs)) (λ _. all_due rs)

pub selected-due : (n : ℕ) (rs : List OutboxRecord) → All (λ r. is_due r ≡ true) (selected n rs)
unfolding selected
selected-due n rs = All-take _ n _ (All-sort_by older _ _ (all_due rs))

pub selected-IsFound :
    (n : ℕ) (rs : List OutboxRecord) → IsKeyed rs → All (IsFound rs) (selected n rs)
unfolding selected
selected-IsFound n rs h =
    All-take _ n _ (All-sort_by older _ _ (All-keep_if _ is_due rs (keyed-IsFound rs h)))

pub attempt_id : (reply : Reply) (now : ℕ) (r : OutboxRecord) → (attempt reply now r).id ≡ r.id
attempt_id Reply.returned now r = refl
attempt_id Reply.capability_missing now r = refl
attempt_id Reply.raised now r = refl

attempts-attempt :
    (reply : Reply) (now : ℕ) (r : OutboxRecord) → (attempt reply now r).attempts ≡ r.attempts + 1
attempts-attempt Reply.returned now r = refl
attempts-attempt Reply.capability_missing now r = refl
attempts-attempt Reply.raised now r = refl

modify_ids :
    (k : ℕ) (reply : Reply) (now : ℕ) (rs : List OutboxRecord)
    → map record_id (modify_row record_id k (attempt reply now) rs) ≡ map record_id rs
modify_ids k reply now [] = refl
modify_ids k reply now (r ∷ rs) =
    if-cases (λ qs. map record_id qs ≡ map record_id (r ∷ rs)) (r.id == k) _ _
      (λ _. ap (λ i. i ∷ map record_id rs) (attempt_id reply now r))
      (λ _. ap (λ is. r.id ∷ is) (modify_ids k reply now rs))

modify_left :
    (k : ℕ) (reply : Reply) (now : ℕ) (rs : List OutboxRecord)
    → left_in (modify_row record_id k (attempt reply now) rs) ≤ left_in rs
modify_left k reply now [] = omega arith
modify_left k reply now (r ∷ rs) =
    if-cases (λ qs. left_in qs ≤ left_in (r ∷ rs)) (r.id == k) _ _
      (λ _. omega (arith, attempts-attempt reply now r))
      (λ _. omega (arith, modify_left k reply now rs))

-- An attempt of a record that has one left takes it.
found_left :
    (k : ℕ) (reply : Reply) (now : ℕ) (q : OutboxRecord) (rs : List OutboxRecord)
    → find_row record_id k rs ≡ some q
    → q.attempts < 5
    → left_in (modify_row record_id k (attempt reply now) rs) < left_in rs
found_left k reply now q [] e h = cc
found_left k reply now q (r ∷ rs) e h = pick (r.id == k) (λ f. found_left k reply now q rs f h) e
  where
    same : some r ≡ some q → r ≡ q
    same f = cc

    pick :
        (b : Bool)
        → (find_row record_id k rs ≡ some q
            → left_in (modify_row record_id k (attempt reply now) rs) < left_in rs)
        → (if b then some r else find_row record_id k rs) ≡ some q
        → left_in (
            if b
            then attempt reply now r ∷ rs
            else r ∷ modify_row record_id k (attempt reply now) rs)
          < left_in (r ∷ rs)
    pick true rest f =
        omega
          (arith, attempts-attempt reply now r, ap (λ (z : OutboxRecord). z.attempts) (same f), h)
    pick false rest f = omega (arith, rest f)

module _ {S : Type 0} (call : String → String → String → S → S × Reply) where
  -- After the turn of a record.
  abbrev next : ℕ → OutboxRecord → Drained S → Drained S
  next now q d =
      let (s, reply) = call q.method q.args_json q.kwargs_json d.odoo in
      record {
        odoo = s;
        records = modify_row record_id q.id (attempt reply now) d.records;
        processed_count = d.processed_count + processed_one reply;
      }

  send_ids :
      (now : ℕ) (qs : List OutboxRecord) (d : Drained S)
      → map record_id (send call now qs d).records ≡ map record_id d.records
  unfolding send
  send_ids now [] d = refl
  send_ids now (q ∷ qs) d =
      send_ids now qs _
      ∙ modify_ids q.id (call q.method q.args_json q.kwargs_json d.odoo).1 now d.records

  send_left :
      (now : ℕ) (qs : List OutboxRecord) (d : Drained S)
      → left_in (send call now qs d).records ≤ left_in d.records
  unfolding send
  send_left now [] d = omega arith
  send_left now (q ∷ qs) d =
      let reply = (call q.method q.args_json q.kwargs_json d.odoo).1 in
      omega (arith, send_left now qs (next now q d), modify_left q.id reply now d.records)

  send_first :
      (now : ℕ) (q : OutboxRecord) (qs : List OutboxRecord) (d : Drained S)
      → IsFound d.records q
      → q.attempts < 5
      → left_in (send call now (q ∷ qs) d).records < left_in d.records
  unfolding send
  send_first now q qs d found h =
      let reply = (call q.method q.args_json q.kwargs_json d.odoo).1 in
      omega (arith, send_left now qs (next now q d), found_left q.id reply now q d.records found h)

  drain_lessens :
      (n now : ℕ) (s : S) (rs : List OutboxRecord) (q : OutboxRecord) (qs : List OutboxRecord)
      → IsKeyed rs
      → selected n rs ≡ q ∷ qs
      → left_in (drain_outbox call n now s rs).records < left_in rs
  unfolding drain_outbox
  drain_lessens n now s rs q qs keyed e =
      subst (λ xs. left_in (send call now xs start).records < left_in rs) (sym e)
        (send_first now q qs start (subst (All (IsFound rs)) e (selected-IsFound n rs keyed)).0
          (due_below q (subst (All (λ r. is_due r ≡ true)) e (selected-due n rs)).0))
    where
      start : Drained S
      start = record { odoo = s; records = rs; processed_count = 0 }

  drain_idle :
      (n now : ℕ) (s : S) (rs : List OutboxRecord)
      → selected n rs ≡ []
      → (drain_outbox call n now s rs).records ≡ rs
  unfolding drain_outbox send
  drain_idle n now s rs e =
      ap (λ xs. (send call now xs (record { odoo = s; records = rs; processed_count = 0 })).records)
        e

-- Nothing is selected only where nothing is due.
insert_some : (x : OutboxRecord) (ys : List OutboxRecord) → insert_by older x ys ≢ []
unfolding insert_by
insert_some x [] e = cc
insert_some x (y ∷ ys) e =
    if-cases (λ zs. zs ≢ []) (older y x) (y ∷ insert_by older x ys) (x ∷ y ∷ ys) (λ _ f. cc)
      (λ _ f. cc) e

take_none : (n : ℕ) (xs : List OutboxRecord) → take (suc n) xs ≡ [] → xs ≡ []
take_none n [] e = refl
take_none n (x ∷ xs) e = cc

sort_none : (xs : List OutboxRecord) → sort_by older xs ≡ [] → xs ≡ []
unfolding sort_by
sort_none [] e = refl
sort_none (x ∷ xs) e = absurd (insert_some x (sort_by older xs) e)

idle_due : (n : ℕ) (rs : List OutboxRecord) → selected (suc n) rs ≡ [] → keep_if is_due rs ≡ []
unfolding selected
idle_due n rs e = sort_none _ (take_none n _ e)

quiet_due : (n : ℕ) (rs : List OutboxRecord) → keep_if is_due rs ≡ [] → selected n rs ≡ []
unfolding selected sort_by
quiet_due zero rs e = refl
quiet_due (suc n) rs e = ap (λ xs. take (suc n) (sort_by older xs)) e

list_cases :
    (xs : List OutboxRecord)
    → (xs ≡ []) ⊎ ((q : OutboxRecord) × (qs : List OutboxRecord) × (xs ≡ q ∷ qs))
list_cases [] = inl refl
list_cases (x ∷ xs) = inr (x, xs, refl)

pub due_open : (q : OutboxRecord) → is_due q ≡ true → q.status ≢ OutboxStatus.processed
due_open q = closed q.status (ltb q.attempts 5)
  where
    closed :
        (s : OutboxStatus) (b : Bool)
        → ((elim s [
          | OutboxStatus.pending ↦ true
          | OutboxStatus.failed ↦ true
          | OutboxStatus.processed ↦ false
        ])
            && b)
          ≡ true
        → s ≢ OutboxStatus.processed
    closed OutboxStatus.processed b g f = cc
    closed OutboxStatus.pending b g f = cc
    closed OutboxStatus.failed b g f = cc

settled : (rs : List OutboxRecord) → left_in rs ≤ 0 → keep_if is_due rs ≡ []
settled [] h = refl
settled (r ∷ rs) h =
    if-cases (λ xs. xs ≡ []) (is_due r) (r ∷ keep_if is_due rs) (keep_if is_due rs)
      (λ e. absurd (omega (arith, h, due_below r e))) (λ _. settled rs (omega (arith, h)))

module _ {S : Type 0} (call : String → String → String → S → S × Reply) (limit : ℕ) where
  -- One drain after the other, at these times, of at most `limit + 1` records each.
  abbrev pub drains : List ℕ → S → List OutboxRecord → List OutboxRecord
  drains [] s rs = rs
  drains (now ∷ times) s rs =
      let d = drain_outbox call (suc limit) now s rs in drains times d.odoo d.records

  pub drain-IsKeyed :
      (now : ℕ) (s : S) (rs : List OutboxRecord)
      → IsKeyed rs
      → IsKeyed (drain_outbox call (suc limit) now s rs).records
  unfolding drain_outbox
  drain-IsKeyed now s rs h =
      subst Distinct
        (sym (
          send_ids call now (selected (suc limit) rs)
            (record { odoo = s; records = rs; processed_count = 0 })))
        h

  stays_idle :
      (times : List ℕ) (s : S) (rs : List OutboxRecord)
      → keep_if is_due rs ≡ []
      → keep_if is_due (drains times s rs) ≡ []
  stays_idle [] s rs h = h
  stays_idle (now ∷ times) s rs h =
      stays_idle times _ _ (
        ap (keep_if is_due) (drain_idle call (suc limit) now s rs (quiet_due (suc limit) rs h)) ∙ h)

  enough_drains :
      (times : List ℕ) (s : S) (rs : List OutboxRecord)
      → IsKeyed rs
      → left_in rs ≤ length times
      → keep_if is_due (drains times s rs) ≡ []
  enough_drains [] s rs keyed h = settled rs h
  enough_drains (now ∷ times) s rs keyed h = elim (list_cases (selected (suc limit) rs)) [
    | inl idle ↦
        stays_idle times _ _
          (ap (keep_if is_due) (drain_idle call (suc limit) now s rs idle) ∙ idle_due limit rs idle)
    | inr (q, qs, e) ↦
        enough_drains times _ _ (drain-IsKeyed now s rs keyed)
          (omega (arith, h, drain_lessens call (suc limit) now s rs q qs keyed e))
  ]

  left_at_most : (rs : List OutboxRecord) → left_in rs ≤ 5 * length rs
  left_at_most [] = omega arith
  left_at_most (r ∷ rs) = omega (arith, left_at_most rs)

  -- After five drains for each record of the outbox, no record is left to be tried, however Odoo
  -- answers, if the keys are distinct and every drain may take one record or more.
  pub outbox_settles :
      (times : List ℕ) (s : S) (rs : List OutboxRecord)
      → IsKeyed rs
      → 5 * length rs ≤ length times
      → keep_if is_due (drains times s rs) ≡ []
  outbox_settles times s rs keyed h =
      enough_drains times s rs keyed (omega (arith, h, left_at_most rs))
