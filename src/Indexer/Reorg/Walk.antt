-- ===== src/Indexer/Reorg/Walk.antt =====
-- The walk of `find_common_ancestor` finds the highest height at which the stored chain and the
-- node's chain have the same hash.
use cellora.Prelude.{
  ℕ, zero, suc, ◌≤◌, ◌<◌, ◌≡◌, ◌≢◌, ◌⊎◌, inl, inr, refl, sym, ap, ◌∙◌, Option, none, some, Bytes,
  bytes_eq_sound, bytes_eq_refl, true, false, Bool-cases, Result, ok, err, ok_or, map_err, Ensures,
  Ensures-bind, Ensures-ok, map_err-eq-ok, ok_or-eq-ok, arith, if◌then◌else◌,
}
use cellora.Prelude.Int.{pos, negsuc}
use mathlib.Core.Path.{subst}
use cellora.Db.Schema.{DbResult}
use cellora.Indexer.Chain.{BlockView, Node, missing_block, ckb_rpc}
use cellora.Indexer.Reorg.{
  ReorgError, Ancestor, rpc, db, no_common_ancestor, same_hash, agree, walk_back,
  find_common_ancestor,
}

-- The node's hash at a height, and the stored one, where there is an answer.
abbrev pub node_hash : Node → ℕ → Option Bytes
node_hash node h = elim (node h) [
  | ok answer ↦ elim answer [ none ↦ none | some block ↦ some block.hash ]
  | err e ↦ none
]

abbrev pub stored_hash : (ℕ → DbResult (Option Bytes)) → ℕ → Option Bytes
stored_hash indexed h = elim (indexed h) [ ok answer ↦ answer | err e ↦ none ]

-- Both sides answered at height `h`, and the hashes are not the same.
pub record Diverge (node : Node) (indexed : ℕ → DbResult (Option Bytes)) (h : ℕ) : Type 0 where
  pub answered : node_hash node h ≢ none
  pub differ : node_hash node h ≢ stored_hash indexed h

pub record Agree (node : Node) (indexed : ℕ → DbResult (Option Bytes)) (a : Ancestor) : Type 0 where
  pub canonical : node_hash node a.block_number ≡ some a.node_hash
  pub stored : stored_hash indexed a.block_number ≡ some a.node_hash

pub record IsCommonAncestor (node : Node) (indexed : ℕ → DbResult (Option Bytes)) (top : ℕ)
    (a : Ancestor) : Type 0 where
  pub within : a.block_number ≤ top
  pub agree : Agree node indexed a
  pub highest : (h : ℕ) → a.block_number < h → h ≤ top → Diverge node indexed h

same_hash_sound : (o : Option Bytes) (hash : Bytes) → same_hash o hash ≡ true → o ≡ some hash
unfolding same_hash
same_hash_sound none hash h = cc
same_hash_sound (some s) hash h = ap some (bytes_eq_sound s hash h)

same_hash_self : (hash : Bytes) → same_hash (some hash) hash ≡ true
unfolding same_hash
same_hash_self hash = bytes_eq_refl hash

pub le_cases : (k h : ℕ) → k ≤ suc h → (k ≤ h) ⊎ (k ≡ suc h)
le_cases k h p = grind arith

-- What one round of the walk says of its height.
pub data Verdict (node : Node) (indexed : ℕ → DbResult (Option Bytes)) (h : ℕ)
    : Option Ancestor → Type 0 where
  same :
      {a : Ancestor} → a.block_number ≡ h → Agree node indexed a → Verdict node indexed h (some a)
  other : Diverge node indexed h → Verdict node indexed h none

same_hash-none : (o : Option Bytes) (hash : Bytes) → same_hash o hash ≡ false → some hash ≢ o
same_hash-none o hash h e = cc (h, e, same_hash_self hash)

module _ (node : Node) (indexed : ℕ → DbResult (Option Bytes)) where
  node_hash-of : (h : ℕ) (b : BlockView) → node h ≡ ok (some b) → node_hash node h ≡ some b.hash
  node_hash-of h b e = ground arith

  stored_hash-of : (h : ℕ) (o : Option Bytes) → indexed h ≡ ok o → stored_hash indexed h ≡ o
  stored_hash-of h o e = ground arith

  compare_hashes :
      (h : ℕ) (block : BlockView) (stored : Option Bytes)
      → node h ≡ ok (some block)
      → indexed h ≡ ok stored
      → Verdict node indexed h (
          if same_hash stored block.hash
          then some (record { block_number = h; node_hash = block.hash })
          else none)
  compare_hashes h block stored en ei = elim (Bool-cases (same_hash stored block.hash)) [
    | inl e ↦ rw e (
        same refl (record {
          canonical = node_hash-of h block en;
          stored = stored_hash-of h stored ei ∙ same_hash_sound stored block.hash e;
        }))
    | inr e ↦ rw e (
        other (record {
          answered = λ p. cc (p, node_hash-of h block en);
          differ = λ p.
              same_hash-none stored block.hash e
                (sym (node_hash-of h block en) ∙ p ∙ stored_hash-of h stored ei);
        }))
  ]

  pub agree-Verdict : (h : ℕ) → Ensures (Verdict node indexed h) (agree node indexed h)
  unfolding agree
  agree-Verdict h =
      let P : Option Ancestor → Type 0 = Verdict node indexed h in
      Ensures-bind P (map_err rpc (node h)) _ λ answer ea.
        Ensures-bind P (ok_or answer (rpc (ckb_rpc (negsuc 31999) (missing_block h)))) _ λ block eb.
          Ensures-bind P (map_err db (indexed h)) _ λ stored es.
            compare_hashes h block stored
              (map_err-eq-ok rpc (node h) ea ∙ ap ok (ok_or-eq-ok answer _ eb))
              (map_err-eq-ok db (indexed h) es)

  -- one more round on top of a walk that found its ancestor below
  raise_top :
      (h : ℕ) (a : Ancestor)
      → Diverge node indexed (suc h)
      → IsCommonAncestor node indexed h a
      → IsCommonAncestor node indexed (suc h) a
  raise_top h a d v = record {
    within = omega (arith, v.within);
    agree = v.agree;
    highest = λ k low high. elim (le_cases k h high) [
      | inl p ↦ v.highest k low p
      | inr p ↦ subst (Diverge node indexed) (sym p) d
    ];
  }

  at_top :
      (h : ℕ) (a : Ancestor)
      → a.block_number ≡ h
      → Agree node indexed a
      → IsCommonAncestor node indexed h a
  at_top h a e v = record {
    within = omega arith;
    agree = v;
    highest = λ k low high. absurd (omega arith);
  }

  walk_back_sound : (h : ℕ) → Ensures (IsCommonAncestor node indexed h) (walk_back node indexed h)
  unfolding walk_back
  walk_back_sound zero =
      let P : Ancestor → Type 0 = IsCommonAncestor node indexed 0 in
      Ensures-bind P (agree node indexed 0) _
        λ found e. last found (Ensures-ok (Verdict node indexed 0) _ found (agree-Verdict 0) e)
    where
      last :
          (found : Option Ancestor)
          → Verdict node indexed 0 found
          → Ensures (IsCommonAncestor node indexed 0) (ok_or found no_common_ancestor)
      last none v = tt
      last (some a) (same e v) = at_top 0 a e v
  walk_back_sound (suc h) =
      let P : Ancestor → Type 0 = IsCommonAncestor node indexed (suc h) in
      Ensures-bind P (agree node indexed (suc h)) _ λ found e.
        next (walk_back node indexed h) (walk_back_sound h) found
          (Ensures-ok (Verdict node indexed (suc h)) _ found (agree-Verdict (suc h)) e)
    where
      next :
          (rest : Result ReorgError Ancestor)
          → Ensures (IsCommonAncestor node indexed h) rest
          → (found : Option Ancestor) → Verdict node indexed (suc h) found
          → Ensures
              (IsCommonAncestor node indexed (suc h))
              (elim found [ some ancestor ↦ ok ancestor | none ↦ rest ])
      next rest ih (some a) (same e v) = at_top (suc h) a e v
      next (ok a) ih none (other d) = raise_top h a d ih
      next (err e) ih none (other d) = tt

-- When the walk returns an ancestor, it is at or below the suspect height, the node and the
-- database hold its hash there, and at every height above it, up to the suspect one, both answered
-- with different hashes.
pub find_common_ancestor-IsCommonAncestor :
    (node : Node) (indexed : ℕ → DbResult (Option Bytes)) (suspect : ℕ) (a : Ancestor)
    → find_common_ancestor node (pos suspect) indexed ≡ ok a
    → IsCommonAncestor node indexed suspect a
unfolding find_common_ancestor
find_common_ancestor-IsCommonAncestor node indexed suspect a h =
    Ensures-ok (IsCommonAncestor node indexed suspect) (walk_back node indexed suspect) a
      (walk_back_sound node indexed suspect) h
