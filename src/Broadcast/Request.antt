-- ===== src/Broadcast/Request.antt =====
-- The checks of a request to broadcast: `normalizeBroadcastTxids` and
-- `validateRawTxMatchesTxid` of BroadcastOrchestrator.ts. Texts in lower case, and the digest and
-- conversions of @bsv/sdk, are parameters.
use wallet_toolbox_rocksdb.Base.{
  Bool, true, false, not, ◌||◌, Option, none, some, List, ◌∷◌, [], if◌then◌else◌, length, ◌==◌, ◌≡◌,
  refl, ◌⊎◌, inl, inr,
}
use Prim.Native.String.{String}
use text.Mathlib.Text.{◌==◌ as str_eq}
use wallet_toolbox_rocksdb.Broadcast.Texts.{codes, is_blank, is_trimmed, is_hex_pairs}
use wallet_toolbox_rocksdb.Merkle.{Sdk, double_sha256_be}

-- A value, or the message of the error that is thrown.
pub data Checked {ℓ} (A : Type ℓ) : Type ℓ where
  passes : A → Checked A
  throws : String → Checked A

pub Checked-cases :
    {A : Type 0} (c : Checked A) → ((m : String) × (c ≡ throws m)) ⊎ ((a : A) × (c ≡ passes a))
Checked-cases (passes a) = inr (a, refl)
Checked-cases (throws m) = inl (m, refl)

-- `B` is the type of the BEEF. A priority does not change what is posted, only when.
pub record Request (B : Type 0) : Type 0 where
  pub beef : B
  pub txids : Option (List String)
  pub txid : Option String
  pub raw_tx : Option String

abbrev pub has_bad_txid : List String → Bool
has_bad_txid [] = false
has_bad_txid (t ∷ ts) = is_blank (codes t) || not (is_trimmed (codes t)) || has_bad_txid ts

module _ (to_lower : String → String) (k : Sdk) where
  -- `asString(doubleSha256BE(asArray(rawTx)))`
  pub raw_tx_hash : String → String
  raw_tx_hash raw = k.to_hex (double_sha256_be k (k.to_array raw))

  pub validate_raw_tx_matches_txid : String → List String → Checked (Unit {0})
  unfolding raw_tx_hash
  validate_raw_tx_matches_txid raw [] =
      throws "Broadcast rawTx validation requires exactly one txid."
  validate_raw_tx_matches_txid raw (t ∷ []) =
      if length (codes raw) == 0 || not (is_hex_pairs (codes raw))
      then throws "Broadcast rawTx must be a non-empty even-length hex string."
      else if str_eq (to_lower (raw_tx_hash raw)) (to_lower t)
      then passes tt
      else throws "Broadcast rawTx does not match txid."
  validate_raw_tx_matches_txid raw (t ∷ u ∷ ts) =
      throws "Broadcast rawTx validation requires exactly one txid."

  abbrev asked_txids : Option (List String) → Option String → List String
  asked_txids (some ts) t = ts
  asked_txids none (some t) = t ∷ []
  asked_txids none none = []

  abbrev asks_twice : Option (List String) → Option String → Bool
  asks_twice (some ts) (some t) = true
  asks_twice ts t = false

  pub normalize_txids : {B : Type 0} → Request B → Checked (List String)
  unfolding validate_raw_tx_matches_txid
  normalize_txids r =
      if asks_twice r.txids r.txid
      then throws "Broadcast request must specify either txids or txid, not both."
      else (let txids = asked_txids r.txids r.txid in
          if length txids == 0 || has_bad_txid txids
          then throws "Broadcast request requires at least one txid."
          else elim r.raw_tx [
            | none ↦ passes txids
            | some raw ↦ elim (validate_raw_tx_matches_txid raw txids) [
              | passes _ ↦ passes txids
              | throws m ↦ throws m
            ]
          ])

unfoldable pub request_runs : Unit {0}
unfolding raw_tx_hash validate_raw_tx_matches_txid normalize_txids
request_runs = tt
