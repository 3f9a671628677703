-- ===== src/Trailing/Ticks.antt =====
-- A whole tick of the trailing stop (trailing_core.py).
use binance.Base.{
  ℕ, ◌≡◌, refl, Bool, true, false, not, ◌⊎◌, ◌||◌, [], inl, inr, Option, none, some, is_some, List,
  ◌∷◌, ◌==◌, or_default, if◌then◌else◌,
}
use binance.Base.Dict.{lookup}
use binance.Base.Stateful.{
  Result, returned, raised, Stateful, Returns, bind-Returns, ◌>>=◌, ◌>>◌, skip, for_each, Keeps,
  bind-Keeps, for_each-Keeps, IsReturned, if-at,
}
use binance.Trailing.Types.{Settings, Item, Adapter, State, Log, Call, free_call, price_call, asked}
use binance.Trailing.Process.{
  Book, consult, in_turn, on_price, process, isolated, check_once, fresh_entry, caught, save_book,
  isolated_tick, whole_tick, tick_if, tick_error, end_whole, returned_if,
}
use binance.Trailing.Orders.{IsSafe}
use binance.Trailing.Visited.{visit-Safe}

abbrev BookSafe : Settings → Adapter → Book → Type 0
BookSafe s a b = IsSafe s a b.log

module _ (s : Settings) (a : Adapter) where
  consult-Keeps :
      {A : Type 0} (call : Call) (answer : Log → Option A)
      → Keeps (BookSafe s a) (consult s a call answer)
  consult-Keeps {A} call answer b h = by_answer (answer b.log)
    where
      b' : Book
      b' = record b { log = asked call ∷ b.log }

      by_answer :
          (o : Option A)
          → BookSafe s a
              (elim o as (λ _. Result A × Book) [
                | none ↦ (raised, b')
                | some x ↦ (returned x, b')
              ]).1
      by_answer none = h
      by_answer (some x) = h

  on_price-Keeps :
      (item : Item) (free : ℕ) (price : Option ℕ)
      → Keeps (BookSafe s a) (on_price s a item free price)
  on_price-Keeps item free none b h = h
  on_price-Keeps item free (some price) b h =
      if-at (λ o. BookSafe s a o.1) (price == 0) skip (in_turn s a item free price) b (λ _. h)
        (λ _.
          visit-Safe s a (record { item = item; state = b.state }) free price
            (not (is_some (lookup item.key b.state)))
            (record {
              entry = or_default (lookup item.key b.state) (fresh_entry price);
              log = b.log;
            })
            h)

  process-Keeps : (item : Item) → Keeps (BookSafe s a) (process s a item)
  unfolding process
  process-Keeps item =
      bind-Keeps (BookSafe s a) (consult s a free_call (λ l. a.free_qty l item.asset))
        (λ free. consult s a price_call (λ l. a.price l item.pair) >>= on_price s a item free)
        (consult-Keeps free_call (λ l. a.free_qty l item.asset))
        (λ free.
          bind-Keeps (BookSafe s a) (consult s a price_call (λ l. a.price l item.pair))
            (on_price s a item free) (consult-Keeps price_call (λ l. a.price l item.pair))
            (on_price-Keeps item free))

  isolated-Keeps : (item : Item) → Keeps (BookSafe s a) (isolated s a item)
  isolated-Keeps item b h = by_end (process s a item b) (process-Keeps item b h)
    where
      by_end :
          (o : Result (Unit {0}) × Book) → BookSafe s a o.1 → BookSafe s a (caught s a item o).1
      by_end (returned x, b') k = k
      by_end (raised, b') k = k

  -- The steps of all assets and the save at the end.
  book-Keeps :
      (f : Item → Stateful Book (Unit {0})) (items : List Item)
      → ((i : Item) → Keeps (BookSafe s a) (f i))
      → Keeps (BookSafe s a) (for_each f items >> save_book s a)
  book-Keeps f items each =
      bind-Keeps (BookSafe s a) (for_each f items) (λ _. save_book s a)
        (for_each-Keeps (BookSafe s a) f items each) (λ _ b h. h)

  end_whole-IsSafe :
      (o : Result (Unit {0}) × Book) → BookSafe s a o.1 → IsSafe s a (end_whole s a o).1
  end_whole-IsSafe (returned x, b) h = h
  end_whole-IsSafe (raised, b) h = h

-- Every order that a tick hands to the adapter, whatever the adapter answers and whether the tick returns or
-- raises, is sent with trading enabled, no order of the asset in flight, and the trend, where it is asked
-- for, not against it. A sale is past the warm-up, at a price at or below the stop under the peak, and worth
-- the least value. A re-buy is for the rounded rest of the tranche, which is not 0 and is worth the least
-- value, at a price past the bounce from the lowest since the sale.
pub check_once-IsSafe :
    (s : Settings) (a : Adapter) (l : Log) → IsSafe s a l → IsSafe s a (check_once s a l).1
unfolding check_once
check_once-IsSafe s a l h = by_begin (a.begin_tick l)
  where
    isolated-safe :
        (state : Option State) (items : Option (List Item))
        → IsSafe s a (isolated_tick s a state items l).1
    isolated-safe none items = h
    isolated-safe (some state) none = h
    isolated-safe (some state) (some items) =
        book-Keeps s a (isolated s a) items (isolated-Keeps s a) (record { state = state; log = l })
          h

    whole-safe :
        (state : Option State) (items : Option (List Item))
        → IsSafe s a (whole_tick s a state items l).1
    whole-safe none items = h
    whole-safe (some state) none = h
    whole-safe (some state) (some items) =
        let b : Book = record { state = state; log = l } in
        end_whole-IsSafe s a ((for_each (process s a) items >> save_book s a) b)
          (book-Keeps s a (process s a) items (process-Keeps s a) b h)

    by_begin : (begins : Option Bool) → IsSafe s a (tick_if s a begins l).1
    by_begin none = h
    by_begin (some false) = h
    by_begin (some true) =
        if-at (λ o. IsSafe s a o.1) s.item_isolation (isolated_tick s a (a.load l) (a.assets l))
          (whole_tick s a (a.load l) (a.assets l)) l (λ _. isolated-safe (a.load l) (a.assets l))
          (λ _. whole-safe (a.load l) (a.assets l))

-- The reports of exceptions return.
abbrev pub Reports : Adapter → Type 0
Reports a =
    ((l : Log) (key : ℕ) → a.log_item_error l key ≡ true) × ((l : Log) → a.log_tick_error l ≡ true)

-- The state is loaded, the assets are listed, and no save raises.
abbrev pub Readable : Adapter → Log → Type 0
Readable a l =
    (is_some (a.load l) ≡ true)
    × (is_some (a.assets l) ≡ true)
    × ((l' : Log) (state : State) → a.save_raises l' state ≡ false)

module _ (s : Settings) (a : Adapter) (reports : Reports a) where
  isolated-Returns : (item : Item) → Returns (isolated s a item)
  isolated-Returns item b = by_end (process s a item b)
    where
      by_end : (o : Result (Unit {0}) × Book) → IsReturned (caught s a item o).0
      by_end (returned x, b') = tt
      by_end (raised, b') = rw (reports.0 b'.log item.key) tt

  each-Returns : (items : List Item) → Returns (for_each (isolated s a) items)
  each-Returns [] = λ b. tt
  each-Returns (i ∷ items) =
      bind-Returns (isolated s a i) (λ _. for_each (isolated s a) items) (isolated-Returns i)
        (λ _. each-Returns items)

  tick_error-IsReturned : (l : Log) → IsReturned (tick_error s a l).0
  tick_error-IsReturned l = rw (reports.1 l) tt

  end_whole-IsReturned : (o : Result (Unit {0}) × Book) → IsReturned (end_whole s a o).0
  end_whole-IsReturned (returned x, b) = tt
  end_whole-IsReturned (raised, b) = tick_error-IsReturned b.log

  save_book-Returns :
      ((l : Log) (state : State) → a.save_raises l state ≡ false) → Returns (save_book s a)
  save_book-Returns quiet b = by_save (a.save b.log b.state)
    where
      by_save :
          (good : Bool) → IsReturned (returned_if s a (good || not (a.save_raises b.log b.state)))
      by_save true = tt
      by_save false = rw (quiet b.log b.state) tt

  isolated_tick-IsReturned :
      (l : Log) (state : Option State) (items : Option (List Item))
      → is_some state ≡ true
      → is_some items ≡ true
      → ((l' : Log) (x : State) → a.save_raises l' x ≡ false)
      → IsReturned (isolated_tick s a state items l).0
  isolated_tick-IsReturned l none items h k quiet = cc
  isolated_tick-IsReturned l (some state) none h k quiet = cc
  isolated_tick-IsReturned l (some state) (some items) h k quiet =
      bind-Returns (for_each (isolated s a) items) (λ _. save_book s a) (each-Returns items)
        (λ _. save_book-Returns quiet) (record { state = state; log = l })

  whole_tick-IsReturned :
      (l : Log) (state : Option State) (items : Option (List Item))
      → IsReturned (whole_tick s a state items l).0
  whole_tick-IsReturned l none items = tick_error-IsReturned l
  whole_tick-IsReturned l (some state) none = tick_error-IsReturned l
  whole_tick-IsReturned l (some state) (some items) =
      end_whole-IsReturned
        ((for_each (process s a) items >> save_book s a) (record { state = state; log = l }))

-- A tick that begins returns, whatever exceptions the calls for its assets raise, where the reports of exceptions
-- return: where the assets are isolated, if the state can be loaded, the assets are listed and no save raises,
-- and where they are not, also if a load, a listing or a save raises.
pub check_once-IsReturned :
    (s : Settings) (a : Adapter) (l : Log)
    → Reports a
    → is_some (a.begin_tick l) ≡ true
    → Readable a l ⊎ (s.item_isolation ≡ false)
    → IsReturned (check_once s a l).0
unfolding check_once
check_once-IsReturned s a l reports begun fit = by_begin (a.begin_tick l) begun
  where
    by_fit :
        Readable a l ⊎ (s.item_isolation ≡ false)
        → (b : Bool) → s.item_isolation ≡ b
        → IsReturned
            ((if b
                then isolated_tick s a (a.load l) (a.assets l)
                else whole_tick s a (a.load l) (a.assets l))
              l).0
    by_fit fits false same = whole_tick-IsReturned s a reports l (a.load l) (a.assets l)
    by_fit (inl (loaded, listed, quiet)) true same =
        isolated_tick-IsReturned s a reports l (a.load l) (a.assets l) loaded listed quiet
    by_fit (inr whole) true same = cc

    by_begin : (begins : Option Bool) → is_some begins ≡ true → IsReturned (tick_if s a begins l).0
    by_begin none h = cc
    by_begin (some false) h = tt
    by_begin (some true) h = by_fit fit s.item_isolation refl
