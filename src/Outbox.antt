-- ===== src/Outbox.antt =====
-- app/odoo/outbox.py: the outbox of the calls that change Odoo. A call is tried until Odoo takes it,
-- five times at most. The texts of the errors are left out.
pub mod Progress
pub mod Processed
use chumma.Base.{
  take, subst, ℕ, zero, suc, ◌+◌, ◌-◌, ◌*◌, ◌/◌, ◌%◌, ◌^◌, ◌≤◌, ◌<◌, String, ◌≡◌, refl, sym, ap,
  ◌∙◌, ◌≢◌, ◌↔◌, ◌⊎◌, inl, inr, Bool, true, false, not, ◌&&◌, ◌||◌, Option, none, some, List, [],
  ◌∷◌, ◌++◌, map, arith, ltb, leb, ◌==◌, if◌then◌else◌, leb→le, ==_iff, ==_refl, Bool-cases,
  Option-cases, if-cases, is_some, length, keep_if, any, all, find_first, sum_of, All,
  sum_of-append, length-append, All-append, All-keep_if,
}
use chumma.Base.Sort.{sort_by}
use chumma.State.Tables.{modify_row}

pub data OutboxStatus : Type 0 where
  pending processed failed : OutboxStatus

pub record OutboxRecord : Type 0 where
  pub id : ℕ
  pub method : String
  pub args_json : String
  pub kwargs_json : String
  pub status : OutboxStatus
  pub attempts : ℕ
  pub processed_at : Option ℕ
  pub created_at : ℕ

abbrev pub record_id : OutboxRecord → ℕ
record_id r = r.id

abbrev or_text : Option String → String → String
or_text none default = default
or_text (some text) default = text

-- The arguments come as the texts that `json.dumps` makes of them.
abbrev pub queue_mutation :
    ℕ → ℕ → String → Option String → Option String → List OutboxRecord → List OutboxRecord
queue_mutation key now method args kwargs rs =
    rs
    ++ record {
      id = key;
      method = method;
      args_json = or_text args "[]";
      kwargs_json = or_text kwargs "{}";
      status = OutboxStatus.pending;
      attempts = 0;
      processed_at = none;
      created_at = now;
    }
      ∷ []

-- What a call comes to: it returns, or it raises `OdooCapabilityMissing` or another exception. A
-- method that the gateway does not have, and a text that is no JSON, raise another one.
pub data Reply : Type 0 where
  returned capability_missing raised : Reply

abbrev pub is_due : OutboxRecord → Bool
is_due r =
    elim r.status [
      | OutboxStatus.pending ↦ true
      | OutboxStatus.failed ↦ true
      | OutboxStatus.processed ↦ false
    ]
    && ltb r.attempts 5

abbrev older : OutboxRecord → OutboxRecord → Bool
older a b = ltb a.created_at b.created_at

-- Records of one time keep the order of the table.
unfoldable pub selected : ℕ → List OutboxRecord → List OutboxRecord
selected max_records rs = take max_records (sort_by older (keep_if is_due rs))

-- One turn of the loop, after the call.
abbrev pub attempt : Reply → ℕ → OutboxRecord → OutboxRecord
attempt Reply.returned now r = record r {
  attempts = r.attempts + 1;
  status = OutboxStatus.processed;
  processed_at = some now;
}
attempt Reply.capability_missing now r = record r {
  attempts = r.attempts + 1;
  status = OutboxStatus.failed;
}
attempt Reply.raised now r = record r {
  attempts = r.attempts + 1;
  status = if leb 5 (r.attempts + 1) then OutboxStatus.failed else OutboxStatus.pending;
}

abbrev pub processed_one : Reply → ℕ
processed_one Reply.returned = 1
processed_one _ = 0

-- The state of Odoo, the table, and the count of the calls that returned.
pub record Drained (S : Type 0) : Type 0 where
  pub odoo : S
  pub records : List OutboxRecord
  pub processed_count : ℕ

-- `call` is the gateway: the method of that name with those arguments.
module _ {S : Type 0} (call : String → String → String → S → S × Reply) where
  unfoldable pub send : ℕ → List OutboxRecord → Drained S → Drained S
  send now [] d = d
  send now (r ∷ rs) d =
      let (s, reply) = call r.method r.args_json r.kwargs_json d.odoo in
      send now rs (record {
        odoo = s;
        records = modify_row record_id r.id (attempt reply now) d.records;
        processed_count = d.processed_count + processed_one reply;
      })

  unfoldable pub drain_outbox : ℕ → ℕ → S → List OutboxRecord → Drained S
  drain_outbox max_records now s rs =
      send now (selected max_records rs) (record { odoo = s; records = rs; processed_count = 0 })
