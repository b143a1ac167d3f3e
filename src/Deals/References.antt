-- ===== src/Deals/References.antt =====
-- The references of the deals of app/services/deal_service.py, which the counter of
-- app/services/number_sequence_service.py draws.
use chumma.Base.{
  Distinct, subst, ℕ, ◌+◌, ◌<◌, ◌≡◌, refl, sym, ap, ◌∙◌, ◌≢◌, Bool, true, false, Option, none, some,
  List, [], ◌∷◌, ◌++◌, map, arith, ◌==◌, if◌then◌else◌, ==_refl, if-cases, All, All-append,
}
use chumma.Context.{DealContext}
use chumma.Enums.{AuditEventType}
use chumma.State.{
  version_conflict, Deal, NumberSequence, ActorType, World, Gateway, ok, or_raise, raise_if,
  entity_not_found,
}
use chumma.State.Results.{>>=_ok, ok_injective}
use chumma.State.Tables.{
  touch, find_row, modify_row, find_modified, modify_deal, record_audit_event,
}
use chumma.Context.Build.{build_deal_context}
use chumma.Deals.{
  new_deal, actor_type_of, differs_from, number_from, refresh, Catalog, deal_key, find_sequence,
  take_number, get_next_sequence, create_deal, refresh_deal, store_deal, sync_deal_from_odoo,
  find_by_order,
}

-- The next number of a key.
abbrev pub next_of : Option NumberSequence → ℕ
next_of none = 1001
next_of (some s) = s.next_value

-- All below a bound, and no two the same.
abbrev pub Numbered : ℕ → List ℕ → Type 0
Numbered bound ns = All (λ n. n < bound) ns × Distinct ns

below_next : (bound : ℕ) (ns : List ℕ) → All (λ n. n < bound) ns → All (λ n. n < bound + 1) ns
below_next bound [] h = tt
below_next bound (n ∷ ns) (h, k) = (omega (arith, h), below_next bound ns k)

differs_from_below :
    (n bound : ℕ) (ns : List ℕ)
    → n < bound
    → All (λ m. n ≢ m) ns
    → All (λ m. n ≢ m) (ns ++ bound ∷ [])
differs_from_below n bound [] h k = ((λ e. omega (arith, e, h)), tt)
differs_from_below n bound (m ∷ ns) h (k, ks) = (k, differs_from_below n bound ns h ks)

Distinct-append : (bound : ℕ) (ns : List ℕ) → Numbered bound ns → Distinct (ns ++ bound ∷ [])
Distinct-append bound [] h = (tt, tt)
Distinct-append bound (n ∷ ns) ((h, hs), (k, ks)) =
    (differs_from_below n bound ns h k, Distinct-append bound ns (hs, ks))

Numbered-append :
    (bound : ℕ) (ns : List ℕ) → Numbered bound ns → Numbered (bound + 1) (ns ++ bound ∷ [])
Numbered-append bound ns h = (
  All-append (λ n. n < bound + 1) ns (bound ∷ []) (below_next bound ns h.0) (omega arith, tt),
  Distinct-append bound ns h,
)

Numbered-subst : {b c : ℕ} {ns ms : List ℕ} → b ≡ c → ns ≡ ms → Numbered b ns → Numbered c ms
Numbered-subst {b} {c} {ns} {ms} e f h = subst (λ x. Numbered x ms) e (subst (Numbered b) f h)

abbrev pub references : List Deal → List ℕ
references = map (λ d. d.reference)

references-append : (ds es : List Deal) → references (ds ++ es) ≡ references ds ++ references es
references-append [] es = refl
references-append (d ∷ ds) es = ap (λ ns. d.reference ∷ ns) (references-append ds es)

references-modify_row :
    (id : ℕ) (f : Deal → Deal) (ds : List Deal)
    → ((d : Deal) → (f d).reference ≡ d.reference)
    → references (modify_row (λ d. d.id) id f ds) ≡ references ds
references-modify_row id f [] keeps = refl
references-modify_row id f (d ∷ ds) keeps =
    if-cases (λ es. references es ≡ references (d ∷ ds)) (d.id == id) _ _
      (λ _. ap (λ n. n ∷ references ds) (keeps d))
      (λ _. ap (λ ns. d.reference ∷ ns) (references-modify_row id f ds keeps))

new_sequence :
    (key : ℕ) (xs : List NumberSequence)
    → find_row (λ x. x.key) key xs ≡ none
    → find_row (λ x. x.key) key (xs ++ record { key = key; next_value = 1001 } ∷ [])
      ≡ some (record { key = key; next_value = 1001 })
new_sequence key [] h = rw (==_refl key) refl
new_sequence key (x ∷ xs) h =
    by_key (x.key == key) (find_row (λ x. x.key) key xs) (new_sequence key xs) h
  where
    by_key :
        (b : Bool) (o : Option NumberSequence) {p q : Option NumberSequence}
        → (o ≡ none → p ≡ q)
        → (if b then some x else o) ≡ none
        → (if b then some x else p) ≡ q
    by_key true o rest h = cc
    by_key false o rest h = rest h

module _ {S : Type 0} where
  -- The references of the deals are distinct, and below the counter's next number.
  abbrev pub IsNumbered : World S → Type 0
  IsNumbered w = Numbered (next_of (find_sequence deal_key w)) (references w.deals)

  take_number-next :
      (key n : ℕ) (w : World S) (s : NumberSequence)
      → find_sequence key w ≡ some s
      → next_of (find_sequence key (take_number key n w).0) ≡ n + 1
  take_number-next key n w s found = ap next_of (
      find_modified (λ (x : NumberSequence). x.key) key key (λ x. record x { next_value = n + 1 })
        w.sequences s (λ x. refl) found refl)

  -- A number is the next of its key, and the one after it comes next.
  get_next_sequence-next :
      (key : ℕ) (w : World S)
      → ((get_next_sequence key w).1 ≡ next_of (find_sequence key w))
        × (next_of (find_sequence key (get_next_sequence key w).0)
            ≡ next_of (find_sequence key w) + 1)
        × ((get_next_sequence key w).0.deals ≡ w.deals)
  unfolding get_next_sequence
  get_next_sequence-next key w = from (find_sequence key w) refl
    where
      from :
          (o : Option NumberSequence)
          → find_sequence key w ≡ o
          → ((number_from o key w).1 ≡ next_of o)
            × (next_of (find_sequence key (number_from o key w).0) ≡ next_of o + 1)
            × ((number_from o key w).0.deals ≡ w.deals)
      from (some s) found = (refl, take_number-next key s.next_value w s found, refl)
      from none missing = (
        refl,
        take_number-next key 1001
            (record w { sequences = w.sequences ++ record { key = key; next_value = 1001 } ∷ [] })
            (record { key = key; next_value = 1001 }) (new_sequence key w.sequences missing),
        refl,
      )

  audit-numbers :
      (kind : AuditEventType) (entity : Option ℕ) (deal : ℕ) (actor_type : ActorType)
      (actor : Option ℕ) (now : ℕ) (w : World S)
      → (references (record_audit_event kind entity deal actor_type actor now w).deals
          ≡ references w.deals)
        × (find_sequence deal_key (record_audit_event kind entity deal actor_type actor now w)
            ≡ find_sequence deal_key w)
  unfolding record_audit_event
  audit-numbers kind entity deal actor_type actor now w =
      (references-modify_row deal (touch now) w.deals (λ d. refl), refl)

  create-IsNumbered :
      (ctx : DealContext) (actor : Option ℕ) (now : ℕ) (w : World S)
      → IsNumbered w
      → IsNumbered (create_deal ctx actor now w).0
  unfolding create_deal
  create-IsNumbered ctx actor now w h =
      let (v, number) = get_next_sequence deal_key w in
      let (first, following, same) = get_next_sequence-next deal_key w in
      let (kept, counter) =
        audit-numbers AuditEventType.deal_created (some v.next_id) v.next_id (actor_type_of actor)
          actor now
          (record v {
            deals = v.deals ++ new_deal v.next_id number ctx now ∷ [];
            next_id = v.next_id + 1;
          }) in
      Numbered-subst (sym (ap next_of counter ∙ following))
        (sym (
          kept
          ∙ references-append v.deals _
          ∙ ap (λ ns. ns ++ number ∷ []) (ap references same)
          ∙ ap (λ n. references w.deals ++ n ∷ []) first))
        (Numbered-append (next_of (find_sequence deal_key w)) (references w.deals) h)

  refresh-IsNumbered :
      (ctx : DealContext) (deal : Deal) (actor : Option ℕ) (now : ℕ) (w : World S)
      → IsNumbered w
      → IsNumbered (refresh_deal ctx deal actor now w).0
  unfolding refresh_deal
  refresh-IsNumbered ctx deal actor now w h =
      let (kept, counter) =
        audit-numbers AuditEventType.deal_synced (some deal.id) deal.id (actor_type_of actor) actor
          now (modify_deal deal.id (refresh ctx now) w) in
      Numbered-subst (sym (ap next_of counter))
        (sym (kept ∙ references-modify_row deal.id (refresh ctx now) w.deals (λ d. refl))) h

  store-IsNumbered :
      (ctx : DealContext) (o : Option Deal) (expected actor : Option ℕ) (now : ℕ) (w : World S)
      (v : World S × ℕ)
      → IsNumbered w
      → store_deal ctx o expected actor now w ≡ ok v
      → IsNumbered v.0
  store-IsNumbered ctx none expected actor now w v h e =
      subst (λ (z : World S × ℕ). IsNumbered z.0) (ok_injective _ v e)
        (create-IsNumbered ctx actor now w h)
  store-IsNumbered ctx (some deal) expected actor now w v h e =
      let (u, same_version, e1) =
        >>=_ok (raise_if (differs_from expected deal.version) version_conflict) _ v e in
      subst (λ (z : World S × ℕ). IsNumbered z.0) (ok_injective _ v e1)
        (refresh-IsNumbered ctx deal actor now w h)

  -- A synchronisation keeps the references of the deals distinct, and below the next number of the
  -- counter.
  pub sync-IsNumbered :
      (gateway : Gateway S) (catalog : Catalog) (order : ℕ) (expected_version actor : Option ℕ)
      (now : ℕ) (w v : World S) (id : ℕ)
      → IsNumbered w
      → sync_deal_from_odoo gateway catalog order expected_version actor now w ≡ ok (v, id)
      → IsNumbered v
  unfolding sync_deal_from_odoo
  sync-IsNumbered gateway catalog order expected_version actor now w v id h e =
      let (ctx, found, e1) =
        >>=_ok
          (or_raise
            (build_deal_context catalog.customers (gateway.get_sale_order order w.odoo)
              (λ ids. gateway.get_availability ids none w.odoo)
              (elim (find_by_order order w) [ none ↦ none | some d ↦ some d.id ]))
            entity_not_found)
          _ (v, id) e in
      store-IsNumbered ctx (find_by_order order w) expected_version actor now w (v, id) h e1
