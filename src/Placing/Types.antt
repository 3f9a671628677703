-- ===== src/Placing/Types.antt =====
-- What the pipeline of instrument.py gets from the code that it calls: a value, a refusal before the submit
-- (`SubmissionRefused`, or a return with that reason), or another exception.
use binance.Outbox.Types.{Side, buy, Reason}
use binance.Worker.Effects.{Refusal, reason_is}
use binance.Base.{ℕ, Bool, true, false}

pub data Try (A : Type 0) : Type 0 where
  gives : A → Try A
  refuses : Refusal → Try A
  raises : Try A

infixl 5 ◌>>=◌ ◌>>◌
abbrev pub ◌>>=◌ : {A B : Type 0} → Try A → (A → Try B) → Try B
gives a >>= f = f a
refuses r >>= f = refuses r
raises >>= f = raises

abbrev pub ◌>>◌ : {B : Type 0} → Try (Unit {0}) → Try B → Try B
m >> k = m >>= λ _. k

-- A return with the reason unless the test holds.
abbrev pub require : Bool → Refusal → Try (Unit {0})
require true r = gives tt
require false r = refuses r

abbrev pub is_buy : Side → Bool
is_buy buy = true
is_buy _ = false

-- The numbers of the texts of a refusal.
abbrev pub text : ℕ → Refusal
text n = reason_is (Reason.other_reason n)

abbrev pub daily_limit : Refusal
daily_limit = text 31

abbrev pub recent_transaction : Refusal
recent_transaction = text 32

abbrev pub profit_refused : Refusal
profit_refused = text 33

abbrev pub market_price_unavailable : Refusal
market_price_unavailable = text 34

abbrev pub balance_unavailable : Refusal
balance_unavailable = text 35

abbrev pub insufficient_funds : Refusal
insufficient_funds = text 36

abbrev pub policy_unavailable : Refusal
policy_unavailable = text 37

abbrev pub qty_zero_after_policy : Refusal
qty_zero_after_policy = text 38

abbrev pub cooldown : Refusal
cooldown = text 39

abbrev pub pre_submit_persist_failed : Refusal
pre_submit_persist_failed = text 40

abbrev pub producer_claim_lost : Refusal
producer_claim_lost = text 41

abbrev pub invalid_price_constraint : Refusal
invalid_price_constraint = text 42

abbrev pub external_permit : Refusal
external_permit = text 43

abbrev pub guard_check_failed : Refusal
guard_check_failed = text 44

abbrev pub invalid_permit_provider : Refusal
invalid_permit_provider = text 45

abbrev pub execution_gate_unavailable : Refusal
execution_gate_unavailable = text 46

abbrev pub price_constraint_unsupported : Refusal
price_constraint_unsupported = text 47
