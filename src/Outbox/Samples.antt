-- ===== src/Outbox/Samples.antt =====
-- Records, requests and answers of a venue, at which the properties of the outbox are tried.
use binance.Base.{true, false, none, some, []}
use binance.Outbox.Types
use binance.Outbox.Types.{
  buy, sell, submit_pending, accepted, awaiting_cancel, plus, blank, outbox, derived,
  trend_deferred, own, Rec, Config, OrderStatus, is_awaiting, is_pending, derive_client_id,
  terminal,
}
use binance.Outbox.Guards.{running}
use binance.Outbox.Request.{Request, Host, num}

abbrev pub sample : Rec
sample = record {
  id = 7;
  intent_id = outbox 7;
  provider_name = some 1;
  symbol = 5;
  side = buy;
  kind = none;
  qty = 100;
  requested_qty_total = some 100;
  delivered_qty = 0;
  client_order_id = some (derived 7 0);
  placement = 0;
  requested_price = some 50;
  ref_price = some 50;
  created_ts = 1000;
  attempts = 0;
  last_attempt_ts = 0;
  last_failure_reason = none;
  ttl_started_ts = some 1000;
  revision = 0;
  lifecycle = submit_pending;
  replaces_order_id = 0;
  replaces_original_qty = none;
  safe_to_discard = false;
  claim_token = none;
  claim_until = none;
  claim_revision = none;
  submission_state = none;
  producer_pid = none;
  producer_start = 0;
  order_id = 0;
  accepted_ts = none;
  submit_status = none;
  last_status_ts = 0;
  last_status = none;
  venue_status = blank;
  status_error = none;
  filled_qty = 0;
  filled_cost = 0;
  filled_fee = plus 0;
  order_history = [];
}

abbrev pub claimed_sample : Rec
claimed_sample = record sample {
  claim_token = some 90;
  claim_until = some 1060;
  claim_revision = some 0;
}

abbrev pub deferred : Rec
deferred = record sample {
  id = 8;
  last_failure_reason = some trend_deferred;
  safe_to_discard = true;
}

abbrev pub accepted_sample : Rec
accepted_sample = record claimed_sample { lifecycle = accepted; order_id = 40 }

abbrev pub waiting : Rec
waiting = record claimed_sample {
  lifecycle = awaiting_cancel;
  replaces_order_id = 40;
  replaces_original_qty = some 100;
}

abbrev pub settings : Config
settings = record {
  enabled = true;
  interval = 30;
  ttl = 3600;
  max_attempts = 5;
  price_tol = 2000;
  dedup = false;
  max_queue = 2;
  claim_lease = 60;
  not_found_max_age = 600;
}

abbrev pub request : Request
request = record {
  symbol = 5;
  side = buy;
  qty = num 100;
  client_order_id = none;
  placement = 0;
  requested_price = some 50;
  ref_price = some 50;
  now = num 1000;
  created_ts = none;
  attempts = num 0;
  last_attempt_ts = num 0;
  failure_reason = some trend_deferred;
  provider_name = some 1;
  intent_id = 0;
  kind = none;
  lifecycle = submit_pending;
  replaces_order_id = 0;
  replaces_original_qty = num 0;
  producer_lease = none;
}

abbrev pub host : Host
host = record { fresh_id = 9; fresh_token = 91; pid = 3; process = λ pid. running 17 }

abbrev pub expired_part : OrderStatus
expired_part = record {
  status = Types.expired;
  filled_qty = 40;
  cost = 2000;
  fee = plus 1;
  venue_status = Types.venue_expired;
}

abbrev pub still_open : OrderStatus
still_open = record {
  status = Types.open_order;
  filled_qty = 40;
  cost = 2000;
  fee = plus 1;
  venue_status = blank;
}

abbrev pub claimed_deferred : Rec
claimed_deferred = record deferred {
  claim_token = some 91;
  claim_until = some 1070;
  claim_revision = some 0;
}
