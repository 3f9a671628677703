-- ===== src/Outbox/Durability.antt =====
-- The queue file is never touched when any line of it is malformed (order_retry.py).
use binance.Base.{
  ℕ, suc, ◌≡◌, refl, Bool, true, false, inl, inr, List, [], ◌∷◌, arith, Has, Bool-cases,
}
use binance.Outbox.Types.{Rec}
use binance.Outbox.Guards.{valid_record}
use binance.Outbox.File.{
  Line, blank_line, garbage, row, corrupt, read_lines, Change, corruption, transact,
}

read_lines-garbage :
    (validate : Bool) (n : ℕ) (ls : List Line)
    → Has garbage ls
    → (k : ℕ) × (read_lines validate n ls ≡ corrupt k)
unfolding read_lines
read_lines-garbage validate n [] h = absurd h
read_lines-garbage validate n (blank_line ∷ ls) (inl e) = cc
read_lines-garbage validate n (blank_line ∷ ls) (inr h) = read_lines-garbage validate (suc n) ls h
read_lines-garbage validate n (garbage ∷ ls) h = (n, refl)
read_lines-garbage validate n (row r ∷ ls) (inl e) = cc
read_lines-garbage true n (row r ∷ ls) (inr h) =
    let (k, e) = read_lines-garbage true (suc n) ls h in
    elim (Bool-cases (valid_record r)) [
      | inl ok ↦ (k, ground (arith, e))
      | inr bad ↦ (n, ground arith)
    ]
read_lines-garbage false n (row r ∷ ls) (inr h) =
    let (k, e) = read_lines-garbage false (suc n) ls h in (k, ground (arith, e))

-- Whatever an operation does, if any line of the queue file is malformed the call reports a
-- corruption, and the file stays exactly as it was.
pub transact-garbage :
    {A : Type 0} (validate : Bool) (op : List Rec → Change A) (ls : List Line)
    → Has garbage ls
    → (k : ℕ) × (transact validate op ls ≡ (corruption k, ls))
unfolding transact
transact-garbage validate op ls h =
    let (k, e) = read_lines-garbage validate 1 ls h in (k, ground (arith, e))
