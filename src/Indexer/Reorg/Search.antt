-- ===== src/Indexer/Reorg/Search.antt =====
-- The walk of `find_common_ancestor` ends with an answer whenever both sides answer.
use mathlib.Core.Path.{subst}
use cellora.Prelude.{
  ℕ, zero, suc, ◌≤◌, ◌≡◌, inl, inr, sym, Option, none, some, Bytes, Result, ok, err, ok_or,
  Ensures-ok, arith, if◌then◌else◌,
}
use cellora.Prelude.Int.{pos}
use cellora.Db.Schema.{DbResult}
use cellora.Indexer.Chain.{BlockView, Node}
use cellora.Indexer.Reorg.{
  ReorgError, Ancestor, no_common_ancestor, same_hash, agree, walk_back, find_common_ancestor,
}
use cellora.Indexer.Reorg.Walk.{
  node_hash, stored_hash, Diverge, Verdict, same, other, agree-Verdict, le_cases,
}

-- The node has a block at every height up to `top`, and the database answers there.
pub record Answers (node : Node) (indexed : ℕ → DbResult (Option Bytes)) (top : ℕ) : Type 0 where
  pub node_at : (h : ℕ) → h ≤ top → (b : BlockView) × (node h ≡ ok (some b))
  pub db_at : (h : ℕ) → h ≤ top → (o : Option Bytes) × (indexed h ≡ ok o)

-- How the walk over the heights up to `top` ends.
pub data Ending (node : Node) (indexed : ℕ → DbResult (Option Bytes)) (top : ℕ)
    : Result ReorgError Ancestor → Type 0 where
  found :
      (a : Ancestor)
      → ((k : ℕ) → k ≤ top → node_hash node k ≡ stored_hash indexed k → k ≤ a.block_number)
      → Ending node indexed top (ok a)
  exhausted :
      ((k : ℕ) → k ≤ top → Diverge node indexed k)
      → Ending node indexed top (err no_common_ancestor)

module _ (node : Node) (indexed : ℕ → DbResult (Option Bytes)) where
  agree-total :
      (h : ℕ)
      → ((b : BlockView) × (node h ≡ ok (some b)))
      → ((o : Option Bytes) × (indexed h ≡ ok o))
      → (found : Option Ancestor) × (agree node indexed h ≡ ok found)
  unfolding agree
  agree-total h (b, en) (o, ei) = (
    (if same_hash o b.hash then some (record { block_number = h; node_hash = b.hash }) else none),
    simp (en, ei),
  )

  lower : (h : ℕ) → Answers node indexed (suc h) → Answers node indexed h
  lower h w = record {
    node_at = λ k p. w.node_at k (omega arith);
    db_at = λ k p. w.db_at k (omega arith);
  }

  ends_at :
      (h : ℕ) (o : Option Ancestor) (rest : Result ReorgError Ancestor)
      → Verdict node indexed (suc h) o
      → Ending node indexed h rest
      → Ending node indexed (suc h) (elim o [ some a ↦ ok a | none ↦ rest ])
  ends_at h (some a) rest (same e v) t = found a (λ k p _. omega arith)
  ends_at h none rest (other d) (found a up) = found a λ k p q. elim (le_cases k h p) [
    | inl low ↦ up k low q
    | inr top ↦ absurd (d.differ (subst (λ j. node_hash node j ≡ stored_hash indexed j) top q))
  ]
  ends_at h none rest (other d) (exhausted all) = exhausted λ k p. elim (le_cases k h p) [
    | inl low ↦ all k low
    | inr top ↦ subst (Diverge node indexed) (sym top) d
  ]

  ends_at_zero :
      (o : Option Ancestor)
      → Verdict node indexed 0 o
      → Ending node indexed 0 (ok_or o no_common_ancestor)
  ends_at_zero (some a) (same e v) = found a (λ k p _. omega arith)
  ends_at_zero none (other d) =
      exhausted λ k p. subst (Diverge node indexed) (let e : 0 ≡ k = omega arith in e) d

  walk_back-Ending :
      (h : ℕ) → Answers node indexed h → Ending node indexed h (walk_back node indexed h)
  unfolding walk_back
  walk_back-Ending zero w =
      let (o, e) = agree-total 0 (w.node_at 0 (omega arith)) (w.db_at 0 (omega arith)) in
      rw e
        (ends_at_zero o (Ensures-ok (Verdict node indexed 0) _ o (agree-Verdict node indexed 0) e))
  walk_back-Ending (suc h) w =
      let (o, e) =
        agree-total (suc h) (w.node_at (suc h) (omega arith)) (w.db_at (suc h) (omega arith)) in
      rw e (
        ends_at h o (walk_back node indexed h)
          (Ensures-ok (Verdict node indexed (suc h)) _ o (agree-Verdict node indexed (suc h)) e)
          (walk_back-Ending h (lower h w)))

-- Where the node and the database answer at every height up to the suspect one, the walk returns an
-- ancestor at or above each height where their hashes agree, or `NoCommonAncestor`, and then only
-- when they differ at every height.
pub find_common_ancestor-Ending :
    (node : Node) (indexed : ℕ → DbResult (Option Bytes)) (suspect : ℕ)
    → Answers node indexed suspect
    → Ending node indexed suspect (find_common_ancestor node (pos suspect) indexed)
unfolding find_common_ancestor
find_common_ancestor-Ending node indexed suspect w = walk_back-Ending node indexed suspect w
