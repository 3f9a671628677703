-- ===== src/Placing/Spacing.antt =====
-- Two calls of `Instrument.place` (instrument.py) for one symbol.
use binance.Base.{
  ℕ, ◌+◌, ◌<◌, ◌≡◌, refl, ap, subst, arith, Bool, true, false, Option, none, some, List, ◌∷◌, [],
  if◌then◌else◌, ◌&&◌, not, Bool-cases, inl, inr,
}
use binance.Base.Dict.{lookup}
use binance.Outbox.File.{Line}
use binance.Outbox.Response.{Response}
use binance.Cooldown.Gate.{State, Fields, Body, reserve, slot, fresh_entry}
use binance.Cooldown.Trade.{reserve_trade, trade_slot, order_key, exclusive_fields}
use binance.Cooldown.Exclusion.{slot-commit_excludes}
use binance.Placing.Types
use binance.Placing.Types.{Try, gives, refuses, raises}
use binance.Placing.Quantity.{Decision}
use binance.Placing.Setting.{Call, Setting, Sent, Ending, accepted, order_id_from_payload}
use binance.Placing.Checks.{Priced, check_price, check_quantity, decide}
use binance.Placing.Slot.{not_sent, in_slot, with_slot, reserved, close}
use binance.Placing.Place.{
  Verdict, turned_away, concluded, Placed, on_quantity, on_decision, on_price, gate, first_gate,
  enter, place,
}
use binance.Placing.Sending.{place-IsGuarded}

module _ (s : Setting) (c : Call) (state : State) (r : Response) where
  -- The slot was free, and is closed around an accepted order.
  abbrev Closed : Placed → Type 0
  Closed out = ((reserved s c state).1 ≡ true) × (out.cooldown ≡ close s c (accepted r) state)

  with_slot-accepted :
      (p : Priced) (qty : ℕ) (ls : List Line)
      → (with_slot s c p qty state ls).ended ≡ accepted r
      → (reserved s c state).1 ≡ true
  unfolding with_slot
  with_slot-accepted p qty ls h = elim (Bool-cases (reserved s c state).1) [
    | inl free ↦ free
    | inr taken ↦ absurd (
        let impossible : (not_sent Types.cooldown none ls).ended ≡ accepted r =
          subst
            (λ b.
              (if b
                then in_slot s c p qty (reserved s c state).0 ls
                else not_sent Types.cooldown none ls).ended
              ≡ accepted r)
            taken h in
        cc)
  ]

  on_quantity-Closed :
      (p : Priced) (d : Decision) (ls : List Line) (t : Try (Unit {0}))
      → (on_quantity s c p d state ls t).verdict ≡ concluded (accepted r)
      → Closed (on_quantity s c p d state ls t)
  on_quantity-Closed p d ls (gives u) h =
      let same : (with_slot s c p d.final_qty state ls).ended ≡ accepted r = cc in
      (with_slot-accepted p d.final_qty ls same, ap (λ e. close s c e state) same)
  on_quantity-Closed p d ls (refuses x) h = absurd (ground arith)
  on_quantity-Closed p d ls raises h = absurd (ground arith)

  on_decision-Closed :
      (p : Priced) (ls : List Line) (t : Try Decision)
      → (on_decision s c p state ls t).verdict ≡ concluded (accepted r)
      → Closed (on_decision s c p state ls t)
  unfolding on_decision
  on_decision-Closed p ls (gives d) h = on_quantity-Closed p d ls (check_quantity s c p d) h
  on_decision-Closed p ls (refuses x) h = absurd (ground arith)
  on_decision-Closed p ls raises h = absurd (ground arith)

  on_price-Closed :
      (ls : List Line) (t : Try Priced)
      → (on_price s c state ls t).verdict ≡ concluded (accepted r)
      → Closed (on_price s c state ls t)
  unfolding on_price
  on_price-Closed ls (gives p) h = on_decision-Closed p ls (decide s c p) h
  on_price-Closed ls (refuses x) h = absurd (ground arith)
  on_price-Closed ls raises h = absurd (ground arith)

  -- A call that is turned away or delegated has concluded nothing.
  gate-concluded : (t : Try Bool) (e : Ending) → gate s c t ≡ some (concluded e) → ⊥
  gate-concluded (gives true) e h = ground arith
  gate-concluded (gives false) e h = ground arith
  gate-concluded (refuses x) e h = ground arith
  gate-concluded raises e h = ground arith

  first_gate-concluded : (e : Ending) → first_gate s c ≡ some (concluded e) → ⊥
  first_gate-concluded e h = elim (Bool-cases (c.has_permit && not s.is_binance)) [
    | inl odd ↦
        let impossible : some (turned_away Types.invalid_permit_provider) ≡ some (concluded e) =
          subst
            (λ b.
              (if b
                then some (turned_away Types.invalid_permit_provider)
                else gate s c s.enabled_first)
              ≡ some (concluded e))
            odd h in
        ground arith
    | inr even ↦ gate-concluded s.enabled_first e (
        subst
          (λ b.
            (if b
              then some (turned_away Types.invalid_permit_provider)
              else gate s c s.enabled_first)
            ≡ some (concluded e))
          even h)
  ]

  enter-Closed :
      (ls : List Line) (v : Option Verdict)
      → first_gate s c ≡ v
      → (enter s c v state ls).verdict ≡ concluded (accepted r)
      → Closed (enter s c v state ls)
  enter-Closed ls none g h = on_price-Closed ls (check_price s c) h
  enter-Closed ls (some v) g h = absurd (first_gate-concluded (accepted r) (cc))

  place-Closed :
      (ls : List Line)
      → (place s c state ls).verdict ≡ concluded (accepted r)
      → Closed (place s c state ls)
  unfolding place
  place-Closed ls h = enter-Closed ls (first_gate s c) refl h

-- A slot of a single order that has committed keeps every other reservation of the symbol back.
trade_slot-commit_excludes :
    (side key ttl client pair now owner : ℕ) (body : Body) (s : State)
    (side' ttl' client' pair' now' owner' : ℕ) {fields : Fields}
    → pair ≡ 0
    → (reserve_trade side key ttl client pair now owner s).1 ≡ true
    → (body (reserve key ttl now owner (exclusive_fields side key client) s).0).1 ≡ some fields
    → lookup key (body (reserve key ttl now owner (exclusive_fields side key client) s).0).0
      ≡ some (fresh_entry now owner (exclusive_fields side key client))
    → now' < now + ttl'
    → (reserve_trade side' key ttl' client' pair' now' owner'
        (trade_slot side key ttl client pair now owner body s).0).1
      ≡ false
unfolding trade_slot reserve_trade slot
trade_slot-commit_excludes side key ttl client pair now owner body s side' ttl' client' pair' now'
      owner' {fields} single free done kept early =
    let is_slot : trade_slot side key ttl client pair now owner body s
        ≡ slot key ttl now owner (exclusive_fields side key client) body s =
      rw single (exclusive_slot) in
    let made : (slot key ttl now owner (exclusive_fields side key client) body s).1 ≡ true =
      slot_made
        (subst (λ p. (reserve_trade side key ttl client p now owner s).1 ≡ true) single free) in
    rw is_slot (
      ap (λ x. x.1)
        (slot-commit_excludes key ttl now owner (exclusive_fields side key client) body s side' ttl'
          client' pair' now' owner' made done kept early))
  where
    exclusive_slot :
        trade_slot side key ttl client 0 now owner body s
        ≡ slot key ttl now owner (exclusive_fields side key client) body s
    exclusive_slot = refl

    slot_made :
        (reserve_trade side key ttl client 0 now owner s).1 ≡ true
        → (slot key ttl now owner (exclusive_fields side key client) body s).1 ≡ true
    slot_made f = ground arith

-- After an accepted order without a pair, and as long as the reservation is left in place while it is held, no
-- call for the symbol through a provider without guards of its own sends an order before its own cooldown has
-- passed since the first took its slot, on either side, from any caller, with any other arguments.
pub place-excludes :
    (s s' : Setting) (c c' : Call) (state : State) (ls ls' : List Line) (r : Response)
    → c.pair ≡ 0
    → s'.guards_internally ≡ false
    → c'.symbol ≡ c.symbol
    → (place s c state ls).verdict ≡ concluded (accepted r)
    → lookup c.symbol (
        s.others_in_slot
          (reserve c.symbol s.cooldown_seconds s.slot_at s.owner
            (exclusive_fields s.side_text c.symbol s.client)
            state).0)
      ≡ some (fresh_entry s.slot_at s.owner (exclusive_fields s.side_text c.symbol s.client))
    → s'.slot_at < s.slot_at + s'.cooldown_seconds
    → (place s' c' (place s c state ls).cooldown ls').sent ≡ none
place-excludes s s' c c' state ls ls' r single bare same h kept early =
    by_sent (place s' c' (place s c state ls).cooldown ls').sent refl
  where
    refused : (reserved s' c' (place s c state ls).cooldown).1 ≡ false
    refused =
        let (free, closed) = place-Closed s c state r ls h in
        rw (closed, same)
          (trade_slot-commit_excludes s.side_text c.symbol s.cooldown_seconds s.client c.pair
            s.slot_at s.owner
            (λ x. (s.others_in_slot x, some ((order_key, order_id_from_payload r) ∷ []))) state
            s'.side_text s'.cooldown_seconds s'.client c'.pair s'.slot_at s'.owner single free refl
            kept early)

    by_sent :
        (o : Option Sent) → (place s' c' (place s c state ls).cooldown ls').sent ≡ o → o ≡ none
    by_sent none e = refl
    by_sent (some o) e =
        let free : (reserved s' c' (place s c state ls).cooldown).1 ≡ true =
          (place-IsGuarded s' c' (place s c state ls).cooldown ls' o bare e).slotted.free in
        let taken = refused in absurd (ground arith)
