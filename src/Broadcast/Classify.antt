-- ===== src/Broadcast/Classify.antt =====
-- `classifyBroadcastResults`: what the results of the providers say of one transaction.
use wallet_toolbox_rocksdb.Base.{
  Bool, true, false, ◌&&◌, ◌||◌, Option, none, some, List, ◌∷◌, [], if◌then◌else◌, find_first,
}
use Prim.Native.String.{String}
use text.Mathlib.Text.{◌==◌ as str_eq}
use wallet_toolbox_rocksdb.Broadcast.Texts.{names_rate_limit, names_timeout}
pub mod Verdicts

pub data Outcome : Type 0 where
  seen already_seen accepted : Outcome
  rejected_terminal rejected_retryable : Outcome
  rate_limited timeout unknown malformed : Outcome

-- `V` is the type of the values that providers attach to their answers.
pub record TxResult (V : Type 0) : Type 0 where
  pub txid : String
  pub succeeded : Bool
  pub already_known : Bool
  pub double_spend : Bool
  pub service_error : Bool
  pub details : Option V

-- `txid_results` is none where the field is no array.
pub record PostResult (V : Type 0) : Type 0 where
  pub succeeded : Bool
  pub error : Option V
  pub txid_results : Option (List (TxResult V))

-- The results: none where they are no array, and none for a result that is null.
abbrev pub Results : Type 0 → Type 0
Results V = Option (List (Option (PostResult V)))

-- What one result decides: an outcome that is returned at once, or one of the two flags, or nothing.
pub data Verdict : Type 0 where
  decided : Outcome → Verdict
  service_trouble status_trouble : Verdict
  silent : Verdict

module _ {V : Type 0} (stringify : Option V → String) where
  abbrev pub first_of : Option V → Option V → Option V
  first_of (some v) w = some v
  first_of none w = w

  pub judge_answer : PostResult V → TxResult V → Verdict
  judge_answer r t =
      if t.succeeded && t.already_known
      then decided already_seen
      else if t.succeeded
      then decided (if r.succeeded then accepted else seen)
      else if t.double_spend
      then decided rejected_terminal
      else if t.service_error
      then (let text = stringify (first_of t.details r.error) in
          if names_rate_limit text
          then decided rate_limited
          else if names_timeout text
          then decided timeout
          else service_trouble)
      else status_trouble

  -- The body of the loop.
  pub judge : String → Option (PostResult V) → Verdict
  unfolding judge_answer
  judge txid none = decided malformed
  judge txid (some r) = elim r.txid_results [
    | none ↦ decided malformed
    | some ts ↦ elim (find_first (λ t. str_eq t.txid txid) ts) [
      | none ↦ silent
      | some t ↦ judge_answer r t
    ]
  ]

  -- The loop, with its two flags.
  pub scan : String → (saw_service saw_status : Bool) → List (Option (PostResult V)) → Outcome
  unfolding judge
  scan txid saw_service saw_status [] =
      if saw_service then rejected_retryable else if saw_status then rejected_terminal else unknown
  scan txid saw_service saw_status (r ∷ rs) = elim (judge txid r) [
    | decided o ↦ o
    | service_trouble ↦ scan txid true saw_status rs
    | status_trouble ↦ scan txid saw_service true rs
    | silent ↦ scan txid saw_service saw_status rs
  ]

  pub classify : Results V → String → Outcome
  unfolding scan
  classify none txid = malformed
  classify (some []) txid = unknown
  classify (some (r ∷ rs)) txid = scan txid false false (r ∷ rs)

pub is_retryable : Outcome → Bool
is_retryable rejected_retryable = true
is_retryable rate_limited = true
is_retryable timeout = true
is_retryable o = false

unfoldable pub classify_runs : Unit {0}
unfolding classify scan judge judge_answer is_retryable
classify_runs = tt
