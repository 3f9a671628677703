-- ===== src/Outbox/File.antt =====
-- The queue file: `_read_nolock`, `_write_nolock`, and a transaction on the file as every operation
-- of order_retry.py makes it under the lock. The JSON text itself is the interpreter's (json.loads and
-- json.dumps) and not modelled: a `Line` is what json.loads makes of a line. A line that it refuses,
-- or that holds no object, is `garbage`; the lock serialises transactions, so each sees the file that
-- the last left.
use binance.Base.{ℕ, suc, Bool, not, ◌&&◌, Option, none, some, List, [], ◌∷◌, if◌then◌else◌}
use binance.Outbox.Types.{Rec}
use binance.Outbox.Guards.{valid_record}

pub data Line : Type 0 where
  blank_line garbage : Line
  row : Rec → Line

-- What a read gives: the records, or the number of the first bad line.
pub data Queue : Type 0 where
  queue : List Rec → Queue
  corrupt : ℕ → Queue

abbrev pub push : Rec → Queue → Queue
push r (queue rs) = queue (r ∷ rs)
push r (corrupt n) = corrupt n

unfoldable pub read_lines : Bool → ℕ → List Line → Queue
read_lines validate n [] = queue []
read_lines validate n (blank_line ∷ ls) = read_lines validate (suc n) ls
read_lines validate n (garbage ∷ ls) = corrupt n
read_lines validate n (row r ∷ ls) =
    let rest = push r (read_lines validate (suc n) ls) in
    if validate && not (valid_record r) then corrupt n else rest

unfoldable pub read_nolock : Bool → List Line → Queue
unfolding read_lines
read_nolock validate ls = read_lines validate 1 ls

unfoldable pub write_nolock : List Rec → List Line
write_nolock [] = []
write_nolock (r ∷ rs) = row r ∷ write_nolock rs

-- A queue operation gives its result and the records to write, or `none` where it writes nothing.
abbrev pub Change : Type 0 → Type 0
Change A = Option (List Rec) × A

-- The queue that the next transaction reads.
abbrev pub after : List Rec → Option (List Rec) → List Rec
after rs none = rs
after rs (some done) = done

abbrev pub written : List Line → Option (List Rec) → List Line
written ls none = ls
written ls (some rs) = write_nolock rs

-- The result, or the line number that `RetryQueueCorruptionError` carries.
pub data Answer (A : Type 0) : Type 0 where
  answer : A → Answer A
  corruption : ℕ → Answer A

abbrev pub on_queue :
    {A : Type 0} → (List Rec → Change A) → List Line → Queue → Answer A × List Line
on_queue op ls (corrupt n) = (corruption n, ls)
on_queue op ls (queue rs) = let (w, a) = op rs in (answer a, written ls w)

unfoldable pub transact :
    {A : Type 0} → Bool → (List Rec → Change A) → List Line → Answer A × List Line
unfolding read_nolock
transact validate op ls = on_queue op ls (read_nolock validate ls)
