-- ===== src/Api/Registry.antt =====
-- crates/api/src/scripts/registry.rs, and `Network` of crates/common/src/config.rs.
use cellora.Prelude.{
  ℕ, ◌+◌, ◌-◌, ◌*◌, Bool, true, false, ◌&&◌, not, Option, none, some, List, [], ◌∷◌, Bytes,
  bytes_eq, codes, leb, ◌==◌, if◌then◌else◌, length, drop,
}

pub data Network : Type 0 where
  mainnet testnet devnet : Network

pub data ScriptKind : Type 0 where
  lock type_ either : ScriptKind

pub data ScriptSlot : Type 0 where
  lock_slot type_slot : ScriptSlot

pub record WellKnownScript : Type 0 where
  pub code_hash : Bytes
  pub hash_type : ℕ
  pub network : Network
  pub kind : ScriptKind
  pub label : Bytes

unfoldable pub same_network : Network → Network → Bool
same_network mainnet mainnet = true
same_network testnet testnet = true
same_network devnet devnet = true
same_network _ _ = false

unfoldable pub hex_nibble : ℕ → ℕ
hex_nibble b =
    if leb 48 b && leb b 57
    then b - 48
    else if leb 97 b && leb b 102
    then b - 97 + 10
    else if leb 65 b && leb b 70
    then b - 65 + 10
    else 255

unfoldable pub nibbles : Bytes → Bytes
nibbles [] = []
nibbles (a ∷ []) = []
nibbles (a ∷ b ∷ rest) = (hex_nibble a * 16 + hex_nibble b) ∷ nibbles rest

-- the 32 bytes of a literal with its "0x"
unfoldable pub h : Bytes → Bytes
h literal = nibbles (drop 2 literal)

unfoldable pub entry : Bytes → Network → ScriptKind → Bytes → WellKnownScript
entry literal network kind label = record {
  code_hash = h literal;
  hash_type = 1;
  network = network;
  kind = kind;
  label = label;
}

abbrev pub sighash : Bytes
sighash = codes "0x9bd7e06f3ecf4be0f2fcd2188b23f1b9fcc88e5d4b65a8637b17723bbda3cce8"

abbrev pub multisig : Bytes
multisig = codes "0x5c5069eb0857efc65e1bca0c07df34c31663b3622fd3876c876320fc9634e2a8"

abbrev pub nervos_dao : Bytes
nervos_dao = codes "0x82d76d1b75fe2fd9a27dfbaa65a039221a380d76c926f378d3f81cf3e7e13f2e"

unfoldable pub registry : List WellKnownScript
registry =
    entry sighash mainnet lock (codes "sighash")
    ∷ entry sighash testnet lock (codes "sighash")
    ∷ entry multisig mainnet lock (codes "multisig")
    ∷ entry multisig testnet lock (codes "multisig")
    ∷ entry nervos_dao mainnet type_ (codes "nervos_dao")
    ∷ entry nervos_dao testnet type_ (codes "nervos_dao")
    ∷ []

unfoldable pub in_slot : ScriptKind → ScriptSlot → Bool
in_slot either slot = true
in_slot lock lock_slot = true
in_slot lock type_slot = false
in_slot type_ lock_slot = false
in_slot type_ type_slot = true

unfoldable pub eligible : Network → Bytes → ℕ → ScriptSlot → WellKnownScript → Bool
eligible network code_hash hash_type slot e =
    same_network e.network network
    && (e.hash_type == hash_type && (bytes_eq e.code_hash code_hash && in_slot e.kind slot))

unfoldable pub find_label : (WellKnownScript → Bool) → List WellKnownScript → Option Bytes
find_label p [] = none
find_label p (e ∷ es) = if p e then some e.label else find_label p es

unfoldable pub lookup : Network → Bytes → ℕ → ScriptSlot → Option Bytes
lookup network code_hash hash_type slot =
    if not (length code_hash == 32)
    then none
    else find_label (eligible network code_hash hash_type slot) registry
