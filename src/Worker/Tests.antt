-- ===== src/Worker/Tests.antt =====
-- Passes of the worker over concrete queues.
use binance.Base.{◌≡◌, refl, true, none, some, [], ◌∷◌}
use binance.Outbox.Guards.{is_possibly_submitted, valid_record}
use binance.Outbox.Request.{num}
use binance.Outbox.Response.{Response}
use binance.Outbox.Samples.{sample, settings, host}
use binance.Worker.Effects.{nothing, status_raises, Setting, World, Stats}
use binance.Worker.Reconcile.{requires_reconciliation}
use binance.Worker.Pass.{process_once}
use binance.Worker.Safety.{IsSafe}
use binance.Worker.Justified.{process_once-IsSafe}
use binance.Worker.Agreement.{requires_reconciliation-eq-is_possibly_submitted}
use binance.Worker.Returns.{IsReturned}
use binance.Worker.Total.{process_once-IsReturned}

-- The market denies every client order ID, quotes 50, and refuses every order without a reason.
abbrev setting : Setting
setting = record {
  config = settings;
  host = host;
  now = 1040;
  default_provider = λ symbol. some 1;
  has_lookup = true;
  capabilities = λ symbol provider.
      some (record { lookup_by_client_order_id = true; not_found_reliable_for = num 300 });
  lookup = λ l symbol client provider. nothing;
  status = λ l symbol order provider. status_raises 3;
  price = λ l symbol. some 50;
  place = λ l r price. record { order = Response.no_response; reason = none; state = none };
  others = λ l rs. rs;
}

abbrev zero_stats : Stats
zero_stats = record {
  attempted = 0;
  succeeded = 0;
  reconciled = 0;
  observed = 0;
  filled = 0;
  terminal_failed = 0;
  terminal_retried = 0;
  expired = 0;
  skipped_price = 0;
  quarantined = 0;
  remaining = 0;
}

abbrev world : World
world = record { queue = sample ∷ []; log = []; stats = zero_stats }

process_once-IsSafe_example : IsSafe setting (process_once setting world).1.log
process_once-IsSafe_example = process_once-IsSafe setting world tt

process_once-IsReturned_example : IsReturned (process_once setting world).0
unfolding valid_record
process_once-IsReturned_example =
    process_once-IsReturned setting world (λ l r price. refl) refl refl refl

requires_reconciliation-eq-is_possibly_submitted_example :
    requires_reconciliation sample ≡ is_possibly_submitted sample
requires_reconciliation-eq-is_possibly_submitted_example =
    requires_reconciliation-eq-is_possibly_submitted sample refl
