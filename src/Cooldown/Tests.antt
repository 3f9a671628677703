-- ===== src/Cooldown/Tests.antt =====
-- The properties of the cooldown gate at concrete reservations.
use binance.Base.{◌≡◌, refl, true, false, inl, none, some, [], ◌∷◌, arith}
use binance.Base.Dict.{lookup}
use binance.Cooldown.Gate.{State, Body, reserve, slot, active}
use binance.Cooldown.Group.{new_group, reserve_group_member}
use binance.Cooldown.Trade.{reserve_trade}
use binance.Cooldown.Exclusion.{reserve_trade-excludes, slot-rollback, slot-commit_excludes}
use binance.Cooldown.Pair.{pair-excludes}

abbrev held : State
held = (reserve_trade 1 5 60 11 0 1000 77 []).0

reserve_trade-excludes_example : reserve_trade 2 5 60 12 4 1059 78 held ≡ (held, false)
unfolding reserve_trade reserve active
reserve_trade-excludes_example =
    reserve_trade-excludes 5 1 60 11 1000 77 2 60 12 4 1059 78 [] refl (omega arith)

abbrev failing : Body
failing s = (s, none)

abbrev buying : Body
buying s = (s, some ((4, 900) ∷ []))

slot-rollback_example :
    (lookup 5 (slot 5 60 2000 77 [] failing held).0 ≡ none)
    × (lookup 6 (slot 5 60 2000 77 [] failing held).0 ≡ lookup 6 (reserve 5 60 2000 77 [] held).0)
unfolding slot reserve active reserve_trade
slot-rollback_example = slot-rollback 5 60 2000 77 [] failing held 6 (omega arith) refl refl

slot-commit_excludes_example :
    reserve_trade 2 5 60 12 0 2059 78 (slot 5 60 2000 77 [] buying held).0
    ≡ ((slot 5 60 2000 77 [] buying held).0, false)
unfolding slot reserve active reserve_trade
slot-commit_excludes_example =
    slot-commit_excludes 5 60 2000 77 [] buying held 2 60 12 0 2059 78 refl refl refl (omega arith)

abbrev one_leg : State
one_leg = (5, new_group 4 1 1000 77 []) ∷ []

pair-excludes_example :
    ((reserve_group_member 5 60 4 2 1010 78 [] one_leg).1 ≡ true)
    × (reserve_group_member 5 60 3 1 1020 79 [] (reserve_group_member 5 60 4 2 1010 78 [] one_leg).0
        ≡ ((reserve_group_member 5 60 4 2 1010 78 [] one_leg).0, false))
pair-excludes_example =
    pair-excludes 5 4 1 2 1000 1010 60 77 78 [] [] one_leg 60 3 1 1020 79 [] (omega arith)
      (omega arith) refl (omega arith) (inl (omega arith))
