-- ===== src/Placing/Place.antt =====
-- `Instrument.place` (instrument.py) from the guards to what it leaves behind: the answer, the order that was
-- sent, the cooldown state and the queue file.
use binance.Base.{Bool, true, false, not, ◌&&◌, Option, none, some, List, is_some, if◌then◌else◌}
use binance.Outbox.File.{Line}
use binance.Outbox.Request.{Num, malformed, num}
use binance.Outbox.Response.{Response}
use binance.Worker.Effects.{Refusal, execution_disabled}
use binance.Cooldown.Gate.{State}
use binance.Placing.Types
use binance.Placing.Types.{
  Try, gives, refuses, raises, ◌>>=◌, ◌>>◌, require, is_buy, guard_check_failed,
}
use binance.Placing.Quantity.{unlimited, not_finite, wanted, Decision}
use binance.Placing.Setting.{Call, Setting, Sent, Ending}
use binance.Placing.Checks.{Priced, reason_of, check_price, decide, check_quantity}
use binance.Placing.Slot.{Held, not_sent, close, with_slot}
use binance.Placing.Final.{finalize}

-- What the call leaves behind. A provider that guards its orders itself is handed the call, and a call that is
-- turned away has touched nothing.
pub data Verdict : Type 0 where
  delegated : Try Response → Verdict
  turned_away : Refusal → Verdict
  concluded : Ending → Verdict

pub record Placed : Type 0 where
  pub verdict : Verdict
  pub sent : Option Sent
  pub cooldown : State
  pub file : List Line

module _ (s : Setting) (c : Call) where
  -- The order that is handed to a provider with guards of its own, as the caller has asked for it.
  abbrev pub handed_over : Verdict → State → List Line → Option Sent
  handed_over (delegated answer) state ls =
      some (record { price = c.price; qty = c.qty; record_of = none; cooldown = state; file = ls })
  handed_over _ state ls = none

  abbrev pub untouched : Verdict → State → List Line → Placed
  untouched v state ls = record {
    verdict = v;
    sent = handed_over v state ls;
    cooldown = state;
    file = ls;
  }

  abbrev pub conclude : Num → Held → State → Placed
  conclude qty h state = record {
    verdict = concluded h.ended;
    sent = h.sent;
    cooldown = state;
    file = finalize s c qty h;
  }

  abbrev pub qty_before : Num
  qty_before = elim c.qty [ unlimited ↦ malformed | not_finite ↦ malformed | wanted n ↦ num n ]

  abbrev pub on_quantity : Priced → Decision → State → List Line → Try (Unit {0}) → Placed
  on_quantity p d state ls (gives done) =
      let h = with_slot s c p d.final_qty state ls in
      conclude (num d.final_qty) h (close s c h.ended state)
  on_quantity p d state ls other =
      conclude (num d.final_qty) (not_sent (reason_of other) none ls) state

  unfoldable pub on_decision : Priced → State → List Line → Try Decision → Placed
  on_decision p state ls (gives d) = on_quantity p d state ls (check_quantity s c p d)
  on_decision p state ls other = conclude qty_before (not_sent (reason_of other) none ls) state

  unfoldable pub on_price : State → List Line → Try Priced → Placed
  unfolding on_decision
  on_price state ls (gives p) = on_decision p state ls (decide s c p)
  on_price state ls other = conclude qty_before (not_sent (reason_of other) none ls) state

  -- What is asked before anything else: `none` lets the call into the pipeline.
  abbrev pub gate : Try Bool → Option Verdict
  gate (gives true) =
      if s.guards_internally
      then some (
          if is_some c.constraint
          then turned_away Types.price_constraint_unsupported
          else delegated s.internal_answer)
      else none
  gate (gives false) = some (turned_away execution_disabled)
  gate _ = some (turned_away Types.execution_gate_unavailable)

  abbrev pub first_gate : Option Verdict
  first_gate =
      if c.has_permit && not s.is_binance
      then some (turned_away Types.invalid_permit_provider)
      else gate s.enabled_first

  abbrev pub enter : Option Verdict → State → List Line → Placed
  enter (some v) state ls = untouched v state ls
  enter none state ls = on_price state ls (check_price s c)

  -- `place`
  unfoldable pub place : State → List Line → Placed
  unfolding on_price check_price
  place state ls = enter first_gate state ls
