-- ===== src/Api/RequestLogs/Buffer.antt =====
-- The length of the buffered list, whatever the order in which the spawned tasks and the worker run.
use mathlib.Core.List.{reverse, reverse_aux}
use cellora.Prelude.{ℕ, zero, suc, ◌+◌, ◌≤◌, ◌≡◌, List, [], ◌∷◌, Bytes, arith, length, take, drop}
use cellora.Api.RequestLogs.{max_buffered_logs, lpush, ltrim, rpop}

-- The list, the tasks between their LPUSH and their LTRIM, and the LTRIMs that failed.
pub record Buffer : Type 0 where
  pub queue : List Bytes
  pub waiting : ℕ
  pub missed : ℕ

abbrev pub no_logs : Buffer
no_logs = record { queue = []; waiting = 0; missed = 0 }

-- One command of one task: an LPUSH that Redis carries out or not, an LTRIM likewise, or a batch
-- that the worker pops.
pub data Step (b : Buffer) : Buffer → Type 0 where
  push :
      (payload : Bytes)
      → Step b (record b { queue = lpush payload b.queue; waiting = b.waiting + 1 })
  push_failed : Step b (record b { waiting = b.waiting + 1 })
  trim : (n : ℕ) → b.waiting ≡ suc n → Step b (record b { queue = ltrim b.queue; waiting = n })
  trim_failed :
      (n : ℕ) → b.waiting ≡ suc n → Step b (record b { waiting = n; missed = b.missed + 1 })
  pop : (count : ℕ) → Step b (record b { queue = (rpop count b.queue).1 })

pub data Reach (b : Buffer) : Buffer → Type 0 where
  here : Reach b b
  next : {c d : Buffer} → Reach b c → Step c d → Reach b d

abbrev IsBounded : Buffer → Type 0
IsBounded b = length b.queue ≤ max_buffered_logs + b.waiting + b.missed

length-take : (n : ℕ) (xs : List Bytes) → length (take n xs) ≤ n
length-take zero xs = omega arith
length-take (suc n) [] = omega arith
length-take (suc n) (x ∷ xs) = omega (arith, length-take n xs)

length-take_self : (n : ℕ) (xs : List Bytes) → length (take n xs) ≤ length xs
length-take_self zero xs = omega arith
length-take_self (suc n) [] = omega arith
length-take_self (suc n) (x ∷ xs) = omega (arith, length-take_self n xs)

length-drop_self : (n : ℕ) (xs : List Bytes) → length (drop n xs) ≤ length xs
length-drop_self zero xs = omega arith
length-drop_self (suc n) [] = omega arith
length-drop_self (suc n) (x ∷ xs) = omega (arith, length-drop_self n xs)

length-reverse_aux : (xs ys : List Bytes) → length (reverse_aux xs ys) ≡ length xs + length ys
length-reverse_aux [] ys = omega arith
length-reverse_aux (x ∷ xs) ys = omega (arith, length-reverse_aux xs (x ∷ ys))

length-rpop : (count : ℕ) (xs : List Bytes) → length (rpop count xs).1 ≤ length xs
unfolding rpop
length-rpop count xs = omega (
  arith,
  length-reverse_aux xs [],
  length-drop_self count (reverse xs),
  length-reverse_aux (drop count (reverse xs)) [],
)

Step-IsBounded : {b c : Buffer} → Step b c → IsBounded b → IsBounded c
unfolding lpush ltrim
Step-IsBounded {b} (push payload) h = omega (arith, h)
Step-IsBounded push_failed h = omega (arith, h)
Step-IsBounded {b} (trim n e) h = omega (arith, length-take max_buffered_logs b.queue)
Step-IsBounded (trim_failed n e) h = omega (arith, h, e)
Step-IsBounded {b} (pop count) h = omega (arith, h, length-rpop count b.queue)

-- From an empty list, and however the tasks and the worker interleave, the list is never longer than
-- 100000 entries, one more for each task that still has to trim and for each LTRIM that failed.
pub Reach-IsBounded :
    (b : Buffer) → Reach no_logs b → length b.queue ≤ 100000 + b.waiting + b.missed
Reach-IsBounded b here = omega arith
Reach-IsBounded b (next {c} r s) = Step-IsBounded s (Reach-IsBounded c r)
