-- ===== src/RtradeStore/Unfinished.antt =====
-- Pruning leaves the rounds that are not finished (_prune_terminal in rtrade_pair_store.py).
use binance.Base.{ℕ, ◌≡◌, refl, ◌≢◌, arith, Bool, false, not, none, some, List, [], ◌∷◌, keep_if}
use binance.Base.Dict.{lookup, insert}
use binance.RtradeStore.Types.{PairRecord, Pairs}
use binance.RtradeStore.Store.{take, newest_first, finished, is_kept, prune_terminal}

abbrev pub is_unfinished : ℕ × PairRecord → Bool
is_unfinished (k, r) = not r.terminal

abbrev pub unfinished : Pairs → Pairs
unfinished = keep_if is_unfinished

keep_if-kept :
    (keep : List PairRecord) (pairs : Pairs)
    → unfinished (keep_if (is_kept keep) pairs) ≡ unfinished pairs
keep_if-kept keep [] = refl
keep_if-kept keep ((k, r) ∷ rest) = ground (arith, keep_if-kept keep rest)

-- Pruning takes out finished rounds only, and keeps the order of the others.
pub unfinished-prune_terminal :
    (retention : ℕ) (pairs : Pairs) → unfinished (prune_terminal retention pairs) ≡ unfinished pairs
unfolding prune_terminal
unfinished-prune_terminal retention pairs =
    keep_if-kept (take retention (newest_first (finished pairs))) pairs

pub lookup-unfinished-none :
    (p : ℕ) (pairs : Pairs) → lookup p pairs ≡ none → lookup p (unfinished pairs) ≡ none
lookup-unfinished-none p [] h = refl
lookup-unfinished-none p ((k, r) ∷ rest) h = ground (arith, lookup-unfinished-none p rest)

pub lookup-unfinished-some :
    (p : ℕ) (pairs : Pairs) (open_round : PairRecord)
    → lookup p pairs ≡ some open_round
    → open_round.terminal ≡ false
    → lookup p (unfinished pairs) ≡ some open_round
lookup-unfinished-some p [] open_round h o = ground arith
lookup-unfinished-some p ((k, r) ∷ rest) open_round h o =
    ground (arith, lookup-unfinished-some p rest open_round)

pub lookup-unfinished-insert_ne :
    (q p : ℕ) (new : PairRecord) (pairs : Pairs)
    → q ≢ p
    → lookup q (unfinished (insert p new pairs)) ≡ lookup q (unfinished pairs)
lookup-unfinished-insert_ne q p new [] apart = ground arith
lookup-unfinished-insert_ne q p new ((k, r) ∷ rest) apart =
    ground (arith, lookup-unfinished-insert_ne q p new rest apart)
