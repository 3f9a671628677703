-- ===== src/Placing/Keeping.antt =====
-- The record of an order that `Instrument.place` (instrument.py) has sent, at the end of the call.
use binance.Base.{
  All, sym, ◌∙◌, ℕ, ◌≡◌, ◌≢◌, refl, ap, subst, arith, Bool, true, false, Option, none, some, List,
  if◌then◌else◌, inl, inr, Has, Bool-cases,
}
use binance.Outbox.Types.{Rec}
use binance.Outbox.Guards.{safe_to_evict, is_non_failure_deferral}
use binance.Outbox.File.{Line, row}
use binance.Outbox.Request.{Num, num}
use binance.Outbox.Response.{Response}
use binance.Outbox.Complete.{failure}
use binance.Worker.Effects.{Refusal}
use binance.Worker.Submit.{is_terminal_refusal}
use binance.Cooldown.Gate.{State}
use binance.Placing.Types
use binance.Placing.Types.{Try, gives, refuses, raises}
use binance.Placing.Quantity.{Decision, wanted}
use binance.Placing.Setting.{Ending, Call, Setting, Sent, accepted_order_payload}
use binance.Placing.Checks.{Priced, check_price, check_quantity, check_enabled, decide}
use binance.Placing.Slot.{
  ending, queues, persist, begin, Held, not_sent, sent_as, on_begin, last_checks, on_checks,
  on_persist, on_enabled, in_slot, reserved, with_slot,
}
use binance.Placing.Final.{bookkeep, finalize}
use binance.Placing.Place.{
  Verdict, Placed, on_quantity, on_decision, on_price, first_gate, enter, place,
}
use binance.Placing.Retained.{Retained, best_effort-Retained, failure-Retained}
use binance.Placing.Tracked.{KeepsRow, complete_accepted_claim-Retained}
use binance.Placing.Recorded.{IsRecorded}
use binance.Placing.Sending.{place-entered}

module _ (s : Setting) (c : Call) (o : Sent) where
  -- Once the order is sent, the slot ends with its claim, its queue file and the answer to it.
  abbrev Whole : Held → Type 0
  Whole h =
      h.sent ≡ some o → (h.claim ≡ o.record_of) × (h.file ≡ o.file) × (h.ended ≡ ending s.response)

  not_sent-Whole : (r : Refusal) (claim : Option Rec) (ls : List Line) → Whole (not_sent r claim ls)
  not_sent-Whole r claim ls h = absurd (cc)

  sent_as-Whole :
      (p : Priced) (qty : ℕ) (claim : Option Rec) (state : State) (ls : List Line)
      → Whole (sent_as s c p qty claim state ls)
  sent_as-Whole p qty claim state ls h =
      let same : record {
        price = p.price;
        qty = wanted qty;
        record_of = claim;
        cooldown = state;
        file = ls;
      }
          ≡ o =
        cc in
      (ap (λ x. x.record_of) same, ap (λ x. x.file) same, refl)

  on_begin-Whole :
      (p : Priced) (qty : ℕ) (claim : Option Rec) (state : State) (x : Try (Option Rec) × List Line)
      → Whole (on_begin s c p qty claim state x)
  on_begin-Whole p qty claim state (gives begun, ls) = sent_as-Whole p qty begun state ls
  on_begin-Whole p qty claim state (refuses r, ls) = not_sent-Whole _ claim ls
  on_begin-Whole p qty claim state (raises, ls) = not_sent-Whole _ claim ls

  on_checks-Whole :
      (p : Priced) (qty : ℕ) (claim : Option Rec) (state : State) (ls : List Line)
      (t : Try (Unit {0}))
      → Whole (on_checks s c p qty claim state ls t)
  unfolding on_checks
  on_checks-Whole p qty claim state ls (gives done) =
      on_begin-Whole p qty claim state (begin s c claim ls)
  on_checks-Whole p qty claim state ls (refuses r) = not_sent-Whole _ claim ls
  on_checks-Whole p qty claim state ls raises = not_sent-Whole _ claim ls

  on_persist-Whole :
      (p : Priced) (qty : ℕ) (state : State) (x : Try (Option Rec) × List Line)
      → Whole (on_persist s c p qty state x)
  unfolding on_persist
  on_persist-Whole p qty state (gives claim, ls) =
      on_checks-Whole p qty claim state ls (last_checks s c p)
  on_persist-Whole p qty state (refuses r, ls) = not_sent-Whole _ none ls
  on_persist-Whole p qty state (raises, ls) = not_sent-Whole _ none ls

  on_enabled-Whole :
      (p : Priced) (qty : ℕ) (state : State) (ls : List Line) (t : Try (Unit {0}))
      → Whole (on_enabled s c p qty state ls t)
  on_enabled-Whole p qty state ls (gives done) = on_persist-Whole p qty state (persist s c p qty ls)
  on_enabled-Whole p qty state ls (refuses r) = not_sent-Whole _ none ls
  on_enabled-Whole p qty state ls raises = not_sent-Whole _ none ls

  with_slot-Whole :
      (p : Priced) (qty : ℕ) (state : State) (ls : List Line) → Whole (with_slot s c p qty state ls)
  unfolding with_slot
  with_slot-Whole p qty state ls = by_slot (reserved s c state).1
    where
      by_slot :
          (b : Bool)
          → Whole (
              if b
              then in_slot s c p qty (reserved s c state).0 ls
              else not_sent Types.cooldown none ls)
      by_slot true =
          on_enabled-Whole p qty (reserved s c state).0 ls (check_enabled s c s.enabled_in_slot)
      by_slot false = not_sent-Whole Types.cooldown none ls

  -- Where the order is sent, the queue file is that of the `finally` block after such a slot.
  abbrev IsEnded : Placed → Type 0
  IsEnded out =
      (h : Held) × (qty : Num) × (out.file ≡ finalize s c qty h) × (h.sent ≡ some o) × Whole h

  on_quantity-IsEnded :
      (p : Priced) (d : Decision) (state : State) (ls : List Line) (t : Try (Unit {0}))
      → (on_quantity s c p d state ls t).sent ≡ some o
      → IsEnded (on_quantity s c p d state ls t)
  on_quantity-IsEnded p d state ls (gives u) e = (
    with_slot s c p d.final_qty state ls,
    num d.final_qty,
    refl,
    e,
    with_slot-Whole p d.final_qty state ls,
  )
  on_quantity-IsEnded p d state ls (refuses r) e = absurd (cc)
  on_quantity-IsEnded p d state ls raises e = absurd (cc)

  on_decision-IsEnded :
      (p : Priced) (state : State) (ls : List Line) (t : Try Decision)
      → (on_decision s c p state ls t).sent ≡ some o
      → IsEnded (on_decision s c p state ls t)
  unfolding on_decision
  on_decision-IsEnded p state ls (gives d) e =
      on_quantity-IsEnded p d state ls (check_quantity s c p d) e
  on_decision-IsEnded p state ls (refuses r) e = absurd (cc)
  on_decision-IsEnded p state ls raises e = absurd (cc)

  on_price-IsEnded :
      (state : State) (ls : List Line) (t : Try Priced)
      → (on_price s c state ls t).sent ≡ some o
      → IsEnded (on_price s c state ls t)
  unfolding on_price
  on_price-IsEnded state ls (gives p) e = on_decision-IsEnded p state ls (decide s c p) e
  on_price-IsEnded state ls (refuses r) e = absurd (cc)
  on_price-IsEnded state ls raises e = absurd (cc)

  -- An order with a record is one of the pipeline.
  place-recorded :
      (state : State) (ls : List Line) (r : Rec)
      → (place s c state ls).sent ≡ some o
      → o.record_of ≡ some r
      → first_gate s c ≡ none
  unfolding place
  place-recorded state ls r e known = by_gate (first_gate s c) e
    where
      by_gate : (v : Option Verdict) → (enter s c v state ls).sent ≡ some o → v ≡ none
      by_gate none f = refl
      by_gate (some (Verdict.delegated answer)) f =
          let same : record {
            price = c.price;
            qty = c.qty;
            record_of = none;
            cooldown = state;
            file = ls;
          }
              ≡ o =
            cc in
          let bare : ◌≡◌ {A = Option Rec} none o.record_of = ap (λ x. x.record_of) same in
          absurd (cc)
      by_gate (some (Verdict.turned_away x)) f = absurd (cc)
      by_gate (some (Verdict.concluded x)) f = absurd (cc)

  place-IsEnded :
      (state : State) (ls : List Line)
      → first_gate s c ≡ none
      → (place s c state ls).sent ≡ some o
      → IsEnded (place s c state ls)
  unfolding place
  place-IsEnded state ls g e =
      subst (λ v. IsEnded (enter s c v state ls)) (sym g)
        (on_price-IsEnded state ls (check_price s c)
          (subst (λ v. (enter s c v state ls).sent ≡ some o) g e))

  bookkeep-Retained :
      (t : Try Response) (qty : Num) (r : Rec) (ls : List Line)
      → ((x : Refusal) → t ≢ refuses x)
      → All (KeepsRow r) s.retries
      → safe_to_evict r ≡ false
      → Has (row r) (s.others_after ls)
      → (kept : Rec) × Retained r kept × Has (row kept) (bookkeep s c (ending t) qty (some r) ls)
  unfolding is_terminal_refusal is_non_failure_deferral
  bookkeep-Retained (gives x) qty r ls sent keep stays there =
      elim (Bool-cases (accepted_order_payload x)) [
        | inl taken ↦ rw taken (
            complete_accepted_claim-Retained x s.provider_name r stays s.completed_at s.others_after
              s.retries ls there keep)
        | inr silent ↦ rw silent (
            best_effort-Retained failure _ s.completed_at r r (s.others_after ls) stays
              (failure-Retained _ s.completed_at r r refl) there)
      ]
  bookkeep-Retained (refuses x) qty r ls sent keep stays there = absurd (sent x refl)
  bookkeep-Retained raises qty r ls sent keep stays there =
      best_effort-Retained failure _ s.completed_at r r (s.others_after ls) stays
        (failure-Retained _ s.completed_at r r refl) there

-- An order that was sent for a call that the queue is to keep, and that the provider has not refused before its
-- submit, has its record in the queue file at the end, under its ID and client order ID and protected from
-- eviction, whether the venue has accepted it, has answered without an order ID, or has not answered at all, and
-- however many attempts to write the acceptance fail, as long as the other processes leave the record in the file
-- before the lease is completed and before each further attempt.
pub place-keeps :
    (s : Setting) (c : Call) (state : State) (ls : List Line) (o : Sent) (r : Rec)
    → (place s c state ls).sent ≡ some o
    → queues s c ≡ true
    → o.record_of ≡ some r
    → Has (row r) (s.others_after o.file)
    → ((x : Refusal) → s.response ≢ refuses x)
    → All (KeepsRow r) s.retries
    → (kept : Rec) × Retained r kept × Has (row kept) (place s c state ls).file
unfolding finalize
place-keeps s c state ls o r e queued known there answered keep =
    let entered : first_gate s c ≡ none = place-recorded s c o state ls r e known in
    let (h, qty, file, sent, whole) = place-IsEnded s c o state ls entered e in
    let (claim, same_file, ended) = whole sent in
    let owned : c.caller_owns_retry ≡ false = ground arith in
    let recorded : IsRecorded s c (some r) o.file =
      subst (λ x. IsRecorded s c x o.file) known
        ((place-entered s c state ls o entered e).slotted.recorded queued) in
    let (snapshot, dispatched, in_file) = recorded in
    let kept_by : Ending → Option Rec → List Line → Type 0 = λ end claimed left.
      (kept : Rec) × Retained r kept × Has (row kept) (bookkeep s c end qty claimed left) in
    let base : kept_by (ending s.response) (some r) o.file =
      bookkeep-Retained s c o s.response qty r o.file answered keep dispatched.not_evictable
        there in
    let of_claim : kept_by (ending s.response) h.claim o.file =
      subst (λ x. kept_by (ending s.response) x o.file) (sym (claim ∙ known)) base in
    subst (λ x. (kept : Rec) × Retained r kept × Has (row kept) x) (sym file)
      (rw owned (
        subst (λ x. kept_by x h.claim h.file) (sym ended)
          (subst (λ x. kept_by (ending s.response) h.claim x) (sym same_file) of_claim)))
