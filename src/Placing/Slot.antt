-- ===== src/Placing/Slot.antt =====
-- The slot of `Instrument.place` (instrument.py): the order is stored, checked once more, marked and sent while the
-- cooldown of its symbol is held.
use binance.Base.{ℕ, Bool, false, not, ◌&&◌, Option, none, some, List, [], ◌∷◌, if◌then◌else◌}
use binance.Outbox.Types.{Rec, Reason, ambiguous, no_order_id, pending_reason, submit_pending}
use binance.Outbox.File.{Line, Answer, answer, corruption, transact}
use binance.Outbox.Request.{Num, malformed, num, Request, Enqueued, leased}
use binance.Outbox.Enqueue.{enqueue_claimed}
use binance.Outbox.Response.{Response}
use binance.Outbox.Claim.{begin_claimed_submit}
use binance.Worker.Effects.{Refusal, reason_is}
use binance.Cooldown.Gate.{State, Fields}
use binance.Cooldown.Trade.{reserve_trade, trade_slot, order_key}
use binance.Placing.Types
use binance.Placing.Types.{
  Try, gives, refuses, raises, ◌>>=◌, ◌>>◌, require, is_buy, guard_check_failed,
}
use binance.Placing.Quantity.{wanted}
use binance.Placing.Setting.{
  Call, Setting, Sent, Ending, accepted, refused_with, unknown_with, accepted_order_payload,
  order_id_from_payload,
}
use binance.Placing.Checks.{Priced, reason_of, take_permit, check_dispatch, check_enabled}

abbrev pub ending : Try Response → Ending
ending (gives r) =
    if accepted_order_payload r then accepted r else unknown_with (reason_is no_order_id)
ending (refuses r) = refused_with r
ending raises = unknown_with (reason_is ambiguous)

module _ (s : Setting) (c : Call) where
  abbrev pub request : ℕ → Num → Option ℕ → Option Reason → Request
  request now qty ref reason = record {
    symbol = c.symbol;
    side = c.side;
    qty = qty;
    client_order_id = c.client_order_id;
    placement = c.placement;
    requested_price = some c.price;
    ref_price = ref;
    now = num now;
    created_ts = none;
    attempts = num 0;
    last_attempt_ts = num 0;
    failure_reason = reason;
    provider_name = some s.provider_name;
    intent_id = c.intent_id;
    kind = c.kind;
    lifecycle = submit_pending;
    replaces_order_id = 0;
    replaces_original_qty = malformed;
    producer_lease = none;
  }

  -- The caller's order is not queued where it keeps its own retry or the queue is off.
  abbrev pub queues : Bool
  queues = not c.caller_owns_retry && s.config.enabled

  abbrev pub as_claim : Answer Enqueued × List Line → Try (Option Rec) × List Line
  as_claim (answer (leased r), ls) = (gives (some r), ls)
  as_claim (_, ls) = (refuses Types.pre_submit_persist_failed, ls)

  -- The intent is stored, under a lease of the producer, before anything is sent.
  unfoldable pub persist : Priced → ℕ → List Line → Try (Option Rec) × List Line
  persist p qty ls =
      if queues
      then as_claim (
          enqueue_claimed s.config s.host
            (request s.enqueued_at (num qty) (some p.price) (some pending_reason)) none ls)
      else (gives none, ls)

  abbrev pub as_dispatch : Answer (Option Rec) × List Line → Try (Option Rec) × List Line
  as_dispatch (answer (some r), ls) = (gives (some r), ls)
  as_dispatch (answer none, ls) = (refuses Types.producer_claim_lost, ls)
  as_dispatch (corruption n, ls) = (raises, ls)

  -- The stored intent is marked as possibly submitted, under the exact lease.
  unfoldable pub begin : Option Rec → List Line → Try (Option Rec) × List Line
  begin none ls = (gives none, ls)
  begin (some r) ls = as_dispatch (
      transact false (begin_claimed_submit s.host r s.begun_at s.config.claim_lease)
        (s.others_before ls))

-- What is left at the end of the slot: the ending, the order that was sent, the claim, and the queue file.
pub record Held : Type 0 where
  pub ended : Ending
  pub sent : Option Sent
  pub claim : Option Rec
  pub file : List Line

abbrev pub not_sent : Refusal → Option Rec → List Line → Held
not_sent reason claim ls = record {
  ended = refused_with reason;
  sent = none;
  claim = claim;
  file = ls;
}

module _ (s : Setting) (c : Call) where
  abbrev pub sent_as : Priced → ℕ → Option Rec → State → List Line → Held
  sent_as p qty claim state ls = record {
    ended = ending s.response;
    sent = some (record {
      price = p.price;
      qty = wanted qty;
      record_of = claim;
      cooldown = state;
      file = ls;
    });
    claim = claim;
    file = ls;
  }

  abbrev pub on_begin : Priced → ℕ → Option Rec → State → Try (Option Rec) × List Line → Held
  on_begin p qty claim state (gives begun, ls) = sent_as p qty begun state ls
  on_begin p qty claim state (other, ls) = not_sent (reason_of other) claim ls

  -- The last checks before the dispatch.
  abbrev pub last_checks : Priced → Try (Unit {0})
  last_checks p = take_permit s c >> check_dispatch s c p >> check_enabled s c s.enabled_last

  unfoldable pub on_checks : Priced → ℕ → Option Rec → State → List Line → Try (Unit {0}) → Held
  unfolding begin
  on_checks p qty claim state ls (gives done) = on_begin p qty claim state (begin s c claim ls)
  on_checks p qty claim state ls other = not_sent (reason_of other) claim ls

  unfoldable pub on_persist : Priced → ℕ → State → Try (Option Rec) × List Line → Held
  unfolding on_checks
  on_persist p qty state (gives claim, ls) = on_checks p qty claim state ls (last_checks p)
  on_persist p qty state (other, ls) = not_sent (reason_of other) none ls

  abbrev pub on_enabled : Priced → ℕ → State → List Line → Try (Unit {0}) → Held
  on_enabled p qty state ls (gives done) = on_persist p qty state (persist s c p qty ls)
  on_enabled p qty state ls other = not_sent (reason_of other) none ls

  abbrev pub in_slot : Priced → ℕ → State → List Line → Held
  in_slot p qty state ls = on_enabled p qty state ls (check_enabled s c s.enabled_in_slot)

  abbrev pub reserved : State → State × Bool
  reserved = reserve_trade s.side_text c.symbol s.cooldown_seconds s.client c.pair s.slot_at s.owner

  -- `slot.commit` where the venue has accepted the order.
  abbrev pub committed : Ending → Option Fields
  committed (accepted r) = some ((order_key, order_id_from_payload r) ∷ [])
  committed _ = none

  -- The cooldown state after the slot around that ending.
  abbrev pub close : Ending → State → State
  close e state =
      (trade_slot s.side_text c.symbol s.cooldown_seconds s.client c.pair s.slot_at s.owner
        (λ x. (s.others_in_slot x, committed e)) state).0

  unfoldable pub with_slot : Priced → ℕ → State → List Line → Held
  with_slot p qty state ls =
      let (held_state, allowed) = reserved state in
      if allowed then in_slot p qty held_state ls else not_sent Types.cooldown none ls
