-- ===== src/Placing/Slotted.antt =====
-- An order that is sent from the slot of `Instrument.place` (instrument.py).
use binance.Base.{
  ℕ, ◌≡◌, refl, ap, subst, Bool, true, false, Option, none, some, List, if◌then◌else◌, Bool-cases,
  inl, inr,
}
use binance.Outbox.Types.{Rec}
use binance.Outbox.File.{Line, Answer, answer, corruption}
use binance.Outbox.Request.{Enqueued, refused_enqueue, stored, leased}
use binance.Cooldown.Gate.{State}
use binance.Placing.Types
use binance.Placing.Types.{Try, gives, refuses, raises, ◌>>=◌, require}
use binance.Placing.Quantity.{wanted}
use binance.Placing.Setting.{Call, Setting, Sent}
use binance.Placing.Checks.{Priced, check_enabled}
use binance.Outbox.Types.{pending_reason}
use binance.Outbox.Request.{num}
use binance.Outbox.Enqueue.{enqueue_claimed}
use binance.Placing.Slot.{
  request, queues, as_claim, persist, begin, not_sent, sent_as, on_begin, last_checks, on_checks,
  on_persist, on_enabled, in_slot, reserved, with_slot,
}
use binance.Placing.Recorded.{IsRecorded, begin-IsRecorded}

module _ (s : Setting) (c : Call) where
  -- What holds of an order that is sent from the slot.
  pub record IsSlotted (p : Priced) (qty : ℕ) (state : State) (o : Sent) : Type 0 where
    pub free : (reserved s c state).1 ≡ true
    pub enabled : s.enabled_in_slot ≡ gives true
    pub checked : last_checks s c p ≡ gives tt
    pub price : o.price ≡ p.price
    pub qty_of : o.qty ≡ wanted qty
    pub held : o.cooldown ≡ (reserved s c state).0
    pub recorded : queues s c ≡ true → IsRecorded s c o.record_of o.file

  sent_as-IsSlotted :
      (p : Priced) (qty : ℕ) (state : State) (o : Sent) (claim : Option Rec) (ls : List Line)
      → (reserved s c state).1 ≡ true
      → s.enabled_in_slot ≡ gives true
      → last_checks s c p ≡ gives tt
      → (queues s c ≡ true → IsRecorded s c claim ls)
      → (sent_as s c p qty claim (reserved s c state).0 ls).sent ≡ some o
      → IsSlotted p qty state o
  sent_as-IsSlotted p qty state o claim ls free on last recorded h =
      let same : record {
        price = p.price;
        qty = wanted qty;
        record_of = claim;
        cooldown = (reserved s c state).0;
        file = ls;
      }
          ≡ o =
        cc in
      subst (IsSlotted p qty state) same (record {
        free = free;
        enabled = on;
        checked = last;
        price = refl;
        qty_of = refl;
        held = refl;
        recorded = recorded;
      })

  on_begin-IsSlotted :
      (p : Priced) (qty : ℕ) (state : State) (o : Sent) (claim : Option Rec) (ls : List Line)
      (x : Try (Option Rec) × List Line)
      → begin s c claim ls ≡ x
      → (reserved s c state).1 ≡ true
      → s.enabled_in_slot ≡ gives true
      → last_checks s c p ≡ gives tt
      → (queues s c ≡ true → (r : Rec) × (claim ≡ some r))
      → (on_begin s c p qty claim (reserved s c state).0 x).sent ≡ some o
      → IsSlotted p qty state o
  on_begin-IsSlotted p qty state o claim ls (gives begun, l) e free on last claimed h =
      sent_as-IsSlotted p qty state o begun l free on last
        (λ q.
          let (r, is_claim) = claimed q in
          begin-IsRecorded s c r ls l begun
            (subst (λ k. begin s c k ls ≡ (gives begun, l)) is_claim e))
        h
  on_begin-IsSlotted p qty state o claim ls (refuses r, l) e free on last claimed h = cc
  on_begin-IsSlotted p qty state o claim ls (raises, l) e free on last claimed h = cc

  on_checks-IsSlotted :
      (p : Priced) (qty : ℕ) (state : State) (o : Sent) (claim : Option Rec) (ls : List Line)
      (t : Try (Unit {0}))
      → last_checks s c p ≡ t
      → (reserved s c state).1 ≡ true
      → s.enabled_in_slot ≡ gives true
      → (queues s c ≡ true → (r : Rec) × (claim ≡ some r))
      → (on_checks s c p qty claim (reserved s c state).0 ls t).sent ≡ some o
      → IsSlotted p qty state o
  unfolding on_checks
  on_checks-IsSlotted p qty state o claim ls (gives u) e free on claimed h =
      on_begin-IsSlotted p qty state o claim ls (begin s c claim ls) refl free on e claimed h
  on_checks-IsSlotted p qty state o claim ls (refuses r) e free on claimed h = cc
  on_checks-IsSlotted p qty state o claim ls raises e free on claimed h = cc

  -- Where the intent is to be queued, there is a claim.
  as_claim-claim :
      (x : Answer Enqueued × List Line) (claim : Option Rec) (ls : List Line)
      → as_claim s c x ≡ (gives claim, ls)
      → (r : Rec) × (claim ≡ some r)
  as_claim-claim (answer (leased r), l) claim ls e =
      let same : ◌≡◌ {A = Try (Option Rec)} (gives (some r)) (gives claim) = ap (λ x. x.0) e in
      (r, cc)
  as_claim-claim (answer refused_enqueue, l) claim ls e = absurd (
      let impossible : ◌≡◌ {A = Try (Option Rec)} (refuses Types.pre_submit_persist_failed)
          (gives claim) =
        ap (λ x. x.0) e in
      cc)
  as_claim-claim (answer (stored id), l) claim ls e = absurd (
      let impossible : ◌≡◌ {A = Try (Option Rec)} (refuses Types.pre_submit_persist_failed)
          (gives claim) =
        ap (λ x. x.0) e in
      cc)
  as_claim-claim (corruption n, l) claim ls e = absurd (
      let impossible : ◌≡◌ {A = Try (Option Rec)} (refuses Types.pre_submit_persist_failed)
          (gives claim) =
        ap (λ x. x.0) e in
      cc)

  persist-claim :
      (p : Priced) (qty : ℕ) (ls l : List Line) (claim : Option Rec)
      → persist s c p qty ls ≡ (gives claim, l)
      → queues s c ≡ true
      → (r : Rec) × (claim ≡ some r)
  unfolding persist
  persist-claim p qty ls l claim e q = as_claim-claim _ claim l (
      subst
        (λ b.
          (if b
            then as_claim s c (
                enqueue_claimed s.config s.host
                  (request s c s.enqueued_at (num qty) (some p.price) (some pending_reason)) none
                  ls)
            else (gives none, ls))
          ≡ (gives claim, l))
        q e)

  on_persist-IsSlotted :
      (p : Priced) (qty : ℕ) (state : State) (o : Sent) (ls : List Line)
      (x : Try (Option Rec) × List Line)
      → persist s c p qty ls ≡ x
      → (reserved s c state).1 ≡ true
      → s.enabled_in_slot ≡ gives true
      → (on_persist s c p qty (reserved s c state).0 x).sent ≡ some o
      → IsSlotted p qty state o
  unfolding on_persist
  on_persist-IsSlotted p qty state o ls (gives claim, l) e free on h =
      on_checks-IsSlotted p qty state o claim l (last_checks s c p) refl free on
        (persist-claim p qty ls l claim e) h
  on_persist-IsSlotted p qty state o ls (refuses r, l) e free on h = cc
  on_persist-IsSlotted p qty state o ls (raises, l) e free on h = cc

  in_slot-IsSlotted :
      (p : Priced) (qty : ℕ) (state : State) (o : Sent) (ls : List Line) (t : Try Bool)
      → s.enabled_in_slot ≡ t
      → (reserved s c state).1 ≡ true
      → (on_enabled s c p qty (reserved s c state).0 ls (check_enabled s c t)).sent ≡ some o
      → IsSlotted p qty state o
  in_slot-IsSlotted p qty state o ls (gives true) e free h =
      on_persist-IsSlotted p qty state o ls (persist s c p qty ls) refl free e h
  in_slot-IsSlotted p qty state o ls (gives false) e free h = cc
  in_slot-IsSlotted p qty state o ls (refuses r) e free h = cc
  in_slot-IsSlotted p qty state o ls raises e free h = cc

  pub with_slot-IsSlotted :
      (p : Priced) (qty : ℕ) (state : State) (o : Sent) (ls : List Line)
      → (with_slot s c p qty state ls).sent ≡ some o
      → IsSlotted p qty state o
  unfolding with_slot
  with_slot-IsSlotted p qty state o ls h = elim (Bool-cases (reserved s c state).1) [
    | inl free ↦ in_slot-IsSlotted p qty state o ls s.enabled_in_slot refl free (
        subst
          (λ b.
            (if b
              then in_slot s c p qty (reserved s c state).0 ls
              else not_sent Types.cooldown none ls).sent
            ≡ some o)
          free h)
    | inr taken ↦ absurd (
        let impossible : (not_sent Types.cooldown none ls).sent ≡ some o =
          subst
            (λ b.
              (if b
                then in_slot s c p qty (reserved s c state).0 ls
                else not_sent Types.cooldown none ls).sent
              ≡ some o)
            taken h in
        cc)
  ]
