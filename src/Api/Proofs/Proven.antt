-- ===== src/Api/Proofs/Proven.antt =====
-- What a proof that is served consists of.
use mathlib.Core.Path.{subst}
use cellora.Prelude.{
  ◌≡◌, refl, Bool, true, false, not, Bool-cases, inl, inr, Option, none, some, Bytes, bytes_eq,
  bytes_eq_sound, codes, ◌++◌, ok, ok_or, map_err, length, ◌==◌, ==_iff, if◌then◌else◌, Ensures,
  Ensures-bind, Ensures-guard, Ensures-ok, ok_or-eq-ok, map_err-eq-ok, ap,
}
use cellora.Api.Hex.{HexDecode, decode_prefixed, try_from_slice}
use cellora.Api.Proofs.{
  Json, Members, null, string, other, object, no_members, member, is_json_null, find_member, get,
  str_of, remove, strip_block_hash, parse_tx_hash, Ckb, ProofResponse, node_unreachable,
  passthrough,
}

find_member-remove :
    (gone name : Bytes) (ms : Members)
    → find_member name (remove gone ms) ≡ (if bytes_eq gone name then none else find_member name ms)
unfolding find_member remove
find_member-remove gone name no_members = elim (Bool-cases (bytes_eq gone name)) [
  | inl e ↦ rw e
  | inr e ↦ rw e
]
find_member-remove gone name (member n v ms) = elim (Bool-cases (bytes_eq n gone)) [
  | inl e ↦
      let same : bytes_eq n name ≡ bytes_eq gone name =
        ap (λ x. bytes_eq x name) (bytes_eq_sound n gone e) in
      elim (Bool-cases (bytes_eq gone name)) [
        | inl k ↦ let ih = find_member-remove gone name ms in rw (e, k) (rw k at ih)
        | inr k ↦ let ih = find_member-remove gone name ms in rw (e, k, same, k) (rw k at ih)
      ]
  | inr e ↦ elim (Bool-cases (bytes_eq n name)) [
    | inl k ↦
        let other_name : bytes_eq gone name ≡ false = elim (Bool-cases (bytes_eq gone name)) [
          | inl h ↦ absurd (cc (e, k, bytes_eq_sound gone name h))
          | inr h ↦ h
        ] in
        rw (e, k, other_name)
    | inr k ↦ rw (e, k, find_member-remove gone name ms)
  ]
]

either_none : (b : Bool) → ◌≡◌ {A = Option Json} none (if b then none else none)
either_none true = refl
either_none false = refl

get-strip_block_hash :
    (name : Bytes) (v : Json)
    → get name (strip_block_hash v)
      ≡ (if bytes_eq (codes "block_hash") name then none else get name v)
unfolding get strip_block_hash
get-strip_block_hash name null = either_none (bytes_eq (codes "block_hash") name)
get-strip_block_hash name (string s) = either_none (bytes_eq (codes "block_hash") name)
get-strip_block_hash name (other s) = either_none (bytes_eq (codes "block_hash") name)
get-strip_block_hash name (object ms) = find_member-remove (codes "block_hash") name ms

-- A response that the node stands behind.
pub record Proven (decode : HexDecode) (hex_encode : Bytes → Bytes) (node : Option Ckb)
    (raw : Bytes) (resp : ProofResponse) : Type 0 where
  pub ckb : Ckb
  pub configured : node ≡ some ckb
  pub named : decode_prefixed decode raw ≡ some resp.tx_hash
  pub wide : length resp.tx_hash ≡ 32
  pub proof : Json
  pub proved :
      ckb (codes "get_transaction_proof") (codes "0x" ++ hex_encode resp.tx_hash) ≡ ok proof
  pub block : Bytes
  pub of_block : str_of (get (codes "block_hash") proof) ≡ some block
  pub headed : ckb (codes "get_header") block ≡ ok resp.block_header
  pub present : is_json_null resp.block_header ≡ false
  pub decoded : decode_prefixed decode block ≡ some resp.block_hash
  pub members :
      (name : Bytes)
      → get name resp.proof ≡ (if bytes_eq (codes "block_hash") name then none else get name proof)

try_from_slice-parts :
    (slice : Bytes) → Ensures (λ out. (slice ≡ out) × (length slice ≡ 32)) (try_from_slice slice)
unfolding try_from_slice
try_from_slice-parts slice = elim (Bool-cases (length slice == 32)) [
  | inl e ↦ rw e (refl, (==_iff (length slice) 32).0 e)
  | inr e ↦ rw e tt
]

parse_tx_hash-parts :
    (decode : HexDecode) (raw : Bytes)
    → Ensures (λ out. decode_prefixed decode raw ≡ some out) (parse_tx_hash decode raw)
unfolding parse_tx_hash
parse_tx_hash-parts decode raw =
    let P : Bytes → Type 0 = λ out. decode_prefixed decode raw ≡ some out in
    Ensures-bind P (ok_or (decode_prefixed decode raw) _) _ λ bytes e.
      Ensures-guard P (length bytes == 32) _ _ λ _. ok_or-eq-ok (decode_prefixed decode raw) _ e

not-true : (b : Bool) → not b ≡ true → b ≡ false
not-true true h = absurd cc
not-true false h = refl

served :
    (decode : HexDecode) (hex_encode : Bytes → Bytes) (node : Option Ckb) (raw : Bytes)
    → Ensures (Proven decode hex_encode node raw) (passthrough decode hex_encode node raw)
unfolding passthrough
served decode hex_encode node raw =
    let P : ProofResponse → Type 0 = Proven decode hex_encode node raw in
    Ensures-bind P (parse_tx_hash decode raw) _ λ tx et. Ensures-bind P (ok_or node _) _ λ ckb ec.
      Ensures-bind P
        (map_err node_unreachable
          (ckb (codes "get_transaction_proof") (codes "0x" ++ hex_encode tx)))
        _
        λ proof ep. Ensures-guard P (not (is_json_null proof)) _ _ λ _.
          Ensures-bind P (ok_or (str_of (get (codes "block_hash") proof)) _) _ λ block eb.
            Ensures-bind P (map_err node_unreachable (ckb (codes "get_header") block)) _
              λ header eh. Ensures-guard P (not (is_json_null header)) _ _ λ seen.
                Ensures-bind P (ok_or (decode_prefixed decode block) _) _ λ hash ed.
                  Ensures-bind P (try_from_slice tx) _ λ tx' e1.
                    Ensures-bind P (try_from_slice hash) _ λ hash' e2.
                      let same =
                        Ensures-ok (λ out. (tx ≡ out) × (length tx ≡ 32)) (try_from_slice tx) tx'
                          (try_from_slice-parts tx) e1 in
                      let same_hash =
                        Ensures-ok (λ out. (hash ≡ out) × (length hash ≡ 32)) (try_from_slice hash)
                          hash' (try_from_slice-parts hash) e2 in
                      let parsed =
                        Ensures-ok (λ out. decode_prefixed decode raw ≡ some out)
                          (parse_tx_hash decode raw) tx (parse_tx_hash-parts decode raw) et in
                      record {
                        ckb = ckb;
                        configured = ok_or-eq-ok node _ ec;
                        named = subst (λ t. decode_prefixed decode raw ≡ some t) same.0 parsed;
                        wide = subst (λ (t : Bytes). length t ≡ 32) same.0 same.1;
                        proof = proof;
                        proved =
                            subst
                              (λ t.
                                ckb (codes "get_transaction_proof") (codes "0x" ++ hex_encode t)
                                ≡ ok proof)
                              same.0 (map_err-eq-ok node_unreachable _ ep);
                        block = block;
                        of_block = ok_or-eq-ok _ _ eb;
                        headed = map_err-eq-ok node_unreachable _ eh;
                        present = not-true (is_json_null header) seen;
                        decoded =
                            subst (λ t. decode_prefixed decode block ≡ some t) same_hash.0
                              (ok_or-eq-ok _ _ ed);
                        members = λ name. get-strip_block_hash name proof;
                      }

-- A proof that is served is for the transaction of the path, which is the hex of 32 bytes; it is the
-- node's proof of it without the block's hash, which stands beside it, and with the header that the
-- node has for that block. All other members of the proof are passed on.
pub passthrough-Proven :
    (decode : HexDecode) (hex_encode : Bytes → Bytes) (node : Option Ckb) (raw : Bytes)
    (resp : ProofResponse)
    → passthrough decode hex_encode node raw ≡ ok resp
    → Proven decode hex_encode node raw resp
passthrough-Proven decode hex_encode node raw resp h =
    Ensures-ok (Proven decode hex_encode node raw) (passthrough decode hex_encode node raw) resp
      (served decode hex_encode node raw) h
