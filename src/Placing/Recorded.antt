-- ===== src/Placing/Recorded.antt =====
-- The record behind an order that `Instrument.place` (instrument.py) sends, and the transaction that marks it.
use binance.Base.{
  ℕ, ◌+◌, ◌≡◌, refl, ap, subst, sym, Bool, false, ◌&&◌, Option, none, some, List, [], ◌∷◌, inl, inr,
  Has, ltb, is_some,
}
use binance.Base.Fallible
use binance.Outbox.Types.{Rec}
use binance.Outbox.File.{
  Change, Line, row, Queue, queue, corrupt, read_nolock, write_nolock, written, after, on_queue,
  Answer, answer, corruption, transact,
}
use binance.Outbox.Claim.{begin_claimed_submit, begin_with, begin_each, dispatch, exact_claim}
use binance.Outbox.Request.{Host, identity_of}
use binance.Outbox.Dispatch.{
  Dispatched, begin_each-Dispatched, IsDispatched, begin_claimed_submit-IsDispatched,
}
use binance.Placing.Types
use binance.Placing.Types.{Try, gives, refuses, raises, ◌>>=◌, require}
use binance.Placing.Setting.{Call, Setting}
use binance.Placing.Slot.{as_dispatch, begin}

-- What a transaction that answers has read and written.
transact-answer :
    {A : Type 0} (op : List Rec → Change A) (ls ls' : List Line) (a : A)
    → transact false op ls ≡ (answer a, ls')
    → (rs : List Rec) × (a ≡ (op rs).1) × (ls' ≡ written ls (op rs).0)
unfolding transact
transact-answer {A} op ls ls' a h = by_queue (read_nolock false ls) h
  where
    by_queue :
        (q : Queue)
        → on_queue op ls q ≡ (answer a, ls')
        → (rs : List Rec) × (a ≡ (op rs).1) × (ls' ≡ written ls (op rs).0)
    by_queue (queue rs) e =
        let same : ◌≡◌ {A = Answer A} (answer (op rs).1) (answer a) = ap (λ x. x.0) e in
        (rs, cc, sym (ap (λ x. x.1) e))
    by_queue (corrupt n) e = cc

pub Has-write_nolock : (r : Rec) (rs : List Rec) → Has r rs → Has (row r) (write_nolock rs)
unfolding write_nolock
Has-write_nolock r [] h = h
Has-write_nolock r (x ∷ xs) (inl same) = inl (ap row same)
Has-write_nolock r (x ∷ xs) (inr h) = inr (Has-write_nolock r xs h)

-- A dispatch that gives a record has written the queue.
Dispatched-written :
    (test : Rec → Bool) (change : Rec → Rec) (rs : List Rec) (x : Change (Option Rec)) (r : Rec)
    → Dispatched test change rs x
    → x.1 ≡ some r
    → (done : List Rec) × (x.0 ≡ some done)
Dispatched-written test change rs (w, none) r d e =
    absurd (let impossible : none ≡ some r = e in cc)
Dispatched-written test change rs (w, some y) r (x, hit, same, done, e, here) f = (done, e)

begin_with-written :
    (h : Host) (snapshot : Rec) (now seconds : ℕ) (rs : List Rec) (identity : Option ℕ) (r : Rec)
    → (begin_with h snapshot now seconds rs identity).1 ≡ some r
    → (done : List Rec) × ((begin_with h snapshot now seconds rs identity).0 ≡ some done)
begin_with-written h snapshot now seconds rs none r e =
    absurd (let impossible : none ≡ some r = e in cc)
begin_with-written h snapshot now seconds rs (some start) r e =
    Dispatched-written (exact_claim snapshot) (dispatch h.pid start now seconds) rs
      (begin_each (exact_claim snapshot) (dispatch h.pid start now seconds) rs) r
      (begin_each-Dispatched (exact_claim snapshot) (dispatch h.pid start now seconds) rs) e

begin_claimed_submit-written :
    (h : Host) (snapshot : Rec) (now seconds : ℕ) (rs : List Rec) (r : Rec)
    → (begin_claimed_submit h snapshot now seconds rs).1 ≡ some r
    → (done : List Rec) × ((begin_claimed_submit h snapshot now seconds rs).0 ≡ some done)
unfolding begin_claimed_submit
begin_claimed_submit-written h snapshot now seconds rs r e =
    begin_with-written h snapshot now seconds rs
      (Fallible.◌>>◌
        (Fallible.require (ltb 0 now && ltb 0 seconds && is_some snapshot.client_order_id))
        (identity_of (h.process h.pid)))
      r e

Has-written :
    (r : Rec) (rs : List Rec) (ls : List Line) (w : Option (List Rec)) (done : List Rec)
    → w ≡ some done
    → Has r (after rs w)
    → Has (row r) (written ls w)
Has-written r rs ls none done e h = absurd (let impossible : none ≡ some done = e in cc)
Has-written r rs ls (some new) done e h = Has-write_nolock r new h

module _ (s : Setting) (c : Call) where
  -- The record behind an order: it stands in the queue file, leased for the time of a dispatch, counts as possibly
  -- submitted while it is pending, and cannot be evicted.
  abbrev pub IsRecorded : Option Rec → List Line → Type 0
  IsRecorded none ls = ⊥
  IsRecorded (some r) ls =
      (snapshot : Rec) × IsDispatched snapshot r (s.begun_at + s.config.claim_lease)
      × Has (row r) ls

  pub begin-IsRecorded :
      (r : Rec) (ls ls' : List Line) (begun : Option Rec)
      → begin s c (some r) ls ≡ (gives begun, ls')
      → IsRecorded begun ls'
  unfolding begin
  begin-IsRecorded r ls ls' begun h = by_answer (transact false op (s.others_before ls)) refl h
    where
      op : List Rec → Change (Option Rec)
      op rs = begin_claimed_submit s.host r s.begun_at s.config.claim_lease rs

      recorded_as :
          (r2 : Rec) (l : List Line)
          → transact false op (s.others_before ls) ≡ (answer (some r2), l)
          → IsRecorded (some r2) l
      recorded_as r2 l e =
          let (rs, same, file) = transact-answer op (s.others_before ls) l (some r2) e in
          let (dispatched, there) =
            begin_claimed_submit-IsDispatched s.host r s.begun_at s.config.claim_lease rs {r = r2}
              (sym same) in
          let (done, wrote) =
            begin_claimed_submit-written s.host r s.begun_at s.config.claim_lease rs r2
              (sym same) in
          (
            r,
            dispatched,
            subst (λ x. Has (row r2) x) (sym file)
                (Has-written r2 rs (s.others_before ls) (op rs).0 done wrote there),
          )

      by_answer :
          (x : Answer (Option Rec) × List Line)
          → transact false op (s.others_before ls) ≡ x
          → as_dispatch s c x ≡ (gives begun, ls')
          → IsRecorded begun ls'
      by_answer (answer (some r2), l) e f =
          let same : gives (some r2) ≡ gives begun = ap (λ x. x.0) f in
          let found : some r2 ≡ begun = cc in
          let file : l ≡ ls' = ap (λ x. x.1) f in
          subst (λ b. IsRecorded b ls') found
            (subst (λ x. IsRecorded (some r2) x) file (recorded_as r2 l e))
      by_answer (answer none, l) e f =
          absurd (
            let impossible : refuses Types.producer_claim_lost ≡ gives begun = ap (λ x. x.0) f in
            cc)
      by_answer (corruption n, l) e f =
          absurd (let impossible : raises ≡ gives begun = ap (λ x. x.0) f in cc)
