-- ===== src/Api/RequestLogs/Drain.antt =====
-- A tick of the worker against a first-in-first-out queue.
use native.Mathlib.Nat.{zero-add, suc-add}
use mathlib.Core.Path.{subst}
use mathlib.Core.List.{reverse, reverse-reverse, reverse-cons, append_assoc}
use cellora.Prelude.{
  ℕ, zero, suc, ◌+◌, ◌*◌, ◌≤◌, ◌<◌, ◌≡◌, refl, sym, ap, ◌∙◌, true, Bool-cases, inl, inr, List, [],
  ◌∷◌, ◌++◌, Bytes, arith, length, take, drop, take_all, ltb, ltb→lt, ◌==◌, ==_iff, Bool, ◌&&◌,
  Option-cases, none, some, Option, map, any, select,
}
use cellora.Api.RequestLogs.{
  ApiRequestLogPayload, LogJson, row_of, insert_row, WorkerEnv, Logs, RequestLogRow, batch_size,
  rpop, persist, batch, drain, tick,
}

-- The queue in the order of arrival.
abbrev pub arrival : Logs → List Bytes
arrival logs = reverse logs.queue

module _ {ℓ} {A : Type ℓ} where
  drop_all : (n : ℕ) (xs : List A) → length xs ≤ n → drop n xs ≡ []
  drop_all zero [] h = refl
  drop_all zero (x ∷ xs) h = absurd (omega arith)
  drop_all (suc n) [] h = refl
  drop_all (suc n) (x ∷ xs) h = drop_all n xs (omega arith)

  take-append_drop : (n m : ℕ) (xs : List A) → take n xs ++ take m (drop n xs) ≡ take (n + m) xs
  take-append_drop zero m xs = rw (zero-add m)
  take-append_drop (suc n) m [] = rw (suc-add n m) (take_all m [] (omega arith))
  take-append_drop (suc n) m (x ∷ xs) =
      rw (suc-add n m) (ap (λ ys. x ∷ ys) (take-append_drop n m xs))

  drop-drop : (n m : ℕ) (xs : List A) → drop m (drop n xs) ≡ drop (n + m) xs
  drop-drop zero m xs = rw (zero-add m)
  drop-drop (suc n) m [] = rw (suc-add n m) (drop_all m [] (omega arith))
  drop-drop (suc n) m (x ∷ xs) = rw (suc-add n m) (drop-drop n m xs)

  -- A short prefix is the whole list.
  length-take_short :
      (n : ℕ) (xs : List A) → length (take n xs) < n → length xs ≡ length (take n xs)
  length-take_short zero xs h = absurd (omega arith)
  length-take_short (suc n) [] h = refl
  length-take_short (suc n) (x ∷ xs) h = ap suc (length-take_short n xs (omega arith))

persist-append :
    (env : WorkerEnv) (xs ys : List Bytes) (rows : List RequestLogRow)
    → persist env (xs ++ ys) rows ≡ persist env ys (persist env xs rows)
unfolding persist
persist-append env [] ys rows = refl
persist-append env (x ∷ xs) ys rows = persist-append env xs ys _

-- What `n` entries taken in the order of arrival leave of the queue, and make of the table.
pub record Oldest (env : WorkerEnv) (n : ℕ) (logs logs' : Logs) : Type 0 where
  pub left : arrival logs' ≡ drop n (arrival logs)
  pub written : logs'.rows ≡ persist env (take n (arrival logs)) logs.rows

batch-Oldest : (env : WorkerEnv) (logs : Logs) → Oldest env batch_size logs (batch env logs)
unfolding batch rpop
batch-Oldest env logs = record { left = reverse-reverse _; written = refl }

-- Fewer entries than `m`, and all are taken.
Oldest-all :
    (env : WorkerEnv) (n m : ℕ) (logs logs' : Logs)
    → length (arrival logs) ≤ n
    → length (arrival logs) ≤ m
    → Oldest env n logs logs'
    → Oldest env m logs logs'
Oldest-all env n m logs logs' h k o = record {
  left = o.left ∙ drop_all n _ h ∙ sym (drop_all m _ k);
  written = o.written ∙ ap (λ xs. persist env xs logs.rows) (take_all n _ h ∙ sym (take_all m _ k));
}

Oldest-then :
    (env : WorkerEnv) (n m : ℕ) (logs logs' logs'' : Logs)
    → Oldest env n logs logs'
    → Oldest env m logs' logs''
    → Oldest env (n + m) logs logs''
Oldest-then env n m logs logs' logs'' o p = record {
  left = p.left ∙ ap (drop m) o.left ∙ drop-drop n m (arrival logs);
  written =
      p.written
      ∙ ap (persist env (take m (arrival logs'))) o.written
      ∙ ap (λ xs. persist env (take m xs) (persist env (take n (arrival logs)) logs.rows)) o.left
      ∙ sym (persist-append env (take n (arrival logs)) (take m (drop n (arrival logs))) logs.rows)
      ∙ ap (λ xs. persist env xs logs.rows) (take-append_drop n m (arrival logs));
}

Oldest-none :
    (env : WorkerEnv) (n : ℕ) (logs : Logs) → length (arrival logs) ≡ 0 → Oldest env n logs logs
unfolding persist
Oldest-none env n logs h =
    Oldest-all env 0 n logs logs (omega (arith, h)) (omega (arith, h))
      (record { left = refl; written = refl })

drain-Oldest :
    (env : WorkerEnv) (n : ℕ) (logs : Logs)
    → ((k : ℕ) → env.answers k ≡ true)
    → Oldest env (n * batch_size) logs (drain env n logs)
unfolding drain rpop persist
drain-Oldest env zero logs up = record { left = refl; written = refl }
drain-Oldest env (suc n) logs up =
    let popped : ℕ = length (take batch_size (arrival logs)) in
    elim (Bool-cases (popped == 0)) [
      | inl e ↦
          let none_popped : popped ≡ 0 = (==_iff popped 0).0 e in
          let nothing : length (arrival logs) ≡ 0 =
            length-take_short batch_size (arrival logs) (omega (arith, none_popped))
            ∙ none_popped in
          rw (up n, e) (Oldest-none env (suc n * batch_size) logs nothing)
      | inr more ↦ elim (Bool-cases (ltb popped batch_size)) [
        | inl e ↦
            let few : popped < batch_size = ltb→lt popped batch_size e in
            let short : length (arrival logs) ≡ popped =
              length-take_short batch_size (arrival logs) few in
            rw (up n, more, e)
              (Oldest-all env batch_size (suc n * batch_size) logs (batch env logs)
                (omega (arith, short, few)) (omega (arith, short, few)) (batch-Oldest env logs))
        | inr e ↦
            rw (up n, more, e)
              (subst (λ m. Oldest env m logs (drain env n (batch env logs))) (omega arith)
                (Oldest-then env batch_size (n * batch_size) logs (batch env logs)
                  (drain env n (batch env logs)) (batch-Oldest env logs)
                  (drain-Oldest env n (batch env logs) up)))
      ]
    ]

abbrev in_front {ℓ} : {A : Type ℓ} → Option A → List A → List A
in_front none xs = xs
in_front (some x) xs = x ∷ xs

-- The texts that can be read, in their order.
abbrev pub readable : LogJson → List Bytes → List ApiRequestLogPayload
readable json [] = []
readable json (text ∷ texts) = in_front (json.from_str text) (readable json texts)

-- Whether the database takes a row: the INSERT is carried out, and the key exists.
abbrev pub taken : WorkerEnv → ApiRequestLogPayload → Bool
taken env payload = env.inserts payload && any (λ id. id == payload.api_key_id) env.key_ids

-- The rows that come of some texts, newest first.
abbrev pub rows_of : WorkerEnv → List Bytes → List RequestLogRow
rows_of env texts = reverse (map row_of (select (taken env) (readable env.json texts)))

persist-rows_of :
    (env : WorkerEnv) (texts : List Bytes) (rows : List RequestLogRow)
    → persist env texts rows ≡ rows_of env texts ++ rows
unfolding persist insert_row select
persist-rows_of env [] rows = refl
persist-rows_of env (text ∷ texts) rows = elim (Option-cases (env.json.from_str text)) [
  | inl e ↦ rw (e, persist-rows_of env texts rows)
  | inr (payload, e) ↦ elim (Bool-cases (taken env payload)) [
    | inl k ↦
        let before : List RequestLogRow =
          map row_of (select (taken env) (readable env.json texts)) in
        let moved : reverse (row_of payload ∷ before) ++ rows
            ≡ reverse before ++ (row_of payload ∷ rows) =
          ap (λ l. l ++ rows) (reverse-cons (row_of payload) before)
          ∙ append_assoc (reverse before) (row_of payload ∷ []) rows in
        rw (e, k, persist-rows_of env texts (row_of payload ∷ rows)) (sym moved)
    | inr k ↦ rw (e, k, persist-rows_of env texts rows)
  ]
]

-- While Redis answers, a tick takes the 1000 entries that arrived first, or all where there are
-- fewer, and leaves the others in their order. Of the taken ones, those that can be read and that the
-- database takes become rows, in the order of arrival and in front of the rows that were there; the
-- others are lost.
pub tick-Oldest :
    (env : WorkerEnv) (logs : Logs)
    → ((k : ℕ) → env.answers k ≡ true)
    → (arrival (tick env logs) ≡ drop 1000 (arrival logs))
      × ((tick env logs).rows ≡ rows_of env (take 1000 (arrival logs)) ++ logs.rows)
unfolding tick
tick-Oldest env logs up =
    let o = drain-Oldest env 10 logs up in
    (o.left, o.written ∙ persist-rows_of env (take 1000 (arrival logs)) logs.rows)
