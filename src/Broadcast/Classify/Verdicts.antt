-- ===== src/Broadcast/Classify/Verdicts.antt =====
-- What an outcome of `classifyBroadcastResults` says of the results of the providers.
use wallet_toolbox_rocksdb.Base.{
  ℕ, suc, ◌≡◌, refl, ◌⊎◌, inl, inr, Bool, true, false, Option, none, some, List, ◌∷◌, [], arith,
  get_elem?, find_first, Option-cases,
}
use Prim.Native.String.{String}
use text.Mathlib.Text.{◌==◌ as str_eq}
use wallet_toolbox_rocksdb.Broadcast.Classify.{
  Outcome, seen, already_seen, accepted, TxResult, PostResult, Verdict, decided, service_trouble,
  status_trouble, silent, judge_answer, judge, scan, classify,
}

-- The outcomes after which the transaction is known to a provider.
abbrev pub is_positive : Outcome → Bool
is_positive seen = true
is_positive already_seen = true
is_positive accepted = true
is_positive o = false

module _ {V : Type 0} (stringify : Option V → String) (txid : String) where
  -- The result's answer for the transaction is a success.
  abbrev pub Confirms : Option (PostResult V) → Type 0
  Confirms none = ⊥
  Confirms (some r) =
      (ts : List (TxResult V)) × (t : TxResult V) × (r.txid_results ≡ some ts)
      × (find_first (λ u. str_eq u.txid txid) ts ≡ some t)
      × (t.succeeded ≡ true)

  judge_answer-positive :
      (r : PostResult V) (t : TxResult V) (o : Outcome)
      → judge_answer stringify r t ≡ decided o
      → is_positive o ≡ true
      → t.succeeded ≡ true
  unfolding judge_answer
  judge_answer-positive r t o e p = ground arith

  judge-positive :
      (r : Option (PostResult V)) (o : Outcome)
      → judge stringify txid r ≡ decided o
      → is_positive o ≡ true
      → Confirms r
  unfolding judge
  judge-positive none o e p = absurd (ground arith)
  judge-positive (some r) o e p = elim (Option-cases r.txid_results) [
    | inl f ↦ absurd (ground (arith, f))
    | inr (ts, f) ↦ elim (Option-cases (find_first (λ u. str_eq u.txid txid) ts)) [
      | inl g ↦ absurd (ground (arith, f, g))
      | inr (t, g) ↦ (ts, t, f, g, judge_answer-positive r t o (rw (judge, f, g) at e) p)
    ]
  ]

  Verdict-cases :
      (v : Verdict)
      → ((o : Outcome) × (v ≡ decided o))
        ⊎ ((v ≡ service_trouble) ⊎ ((v ≡ status_trouble) ⊎ (v ≡ silent)))
  Verdict-cases (decided o) = inl (o, refl)
  Verdict-cases service_trouble = inr (inl refl)
  Verdict-cases status_trouble = inr (inr (inl refl))
  Verdict-cases silent = inr (inr (inr refl))

  scan-positive :
      (service status : Bool) (rs : List (Option (PostResult V)))
      → is_positive (scan stringify txid service status rs) ≡ true
      → (i : ℕ) × (r : Option (PostResult V)) × (get_elem? rs i ≡ some r) × Confirms r
  unfolding scan
  scan-positive service status [] p = absurd (ground arith)
  scan-positive service status (r ∷ rs) p = elim (Verdict-cases (judge stringify txid r)) [
    | inl (o, e) ↦ (0, r, refl, judge-positive r o e (rw (scan, e) at p))
    | inr (inl e) ↦
        let (i, q, g, c) = scan-positive true status rs (rw (scan, e) at p) in (suc i, q, g, c)
    | inr (inr (inl e)) ↦
        let (i, q, g, c) = scan-positive service true rs (rw (scan, e) at p) in (suc i, q, g, c)
    | inr (inr (inr e)) ↦
        let (i, q, g, c) = scan-positive service status rs (rw (scan, e) at p) in (suc i, q, g, c)
  ]

  -- Where the results are classified as seen, already seen or accepted, one of them is a provider's
  -- whose answer for the transaction is a success.
  pub classify-positive :
      (rs : List (Option (PostResult V)))
      → is_positive (classify stringify (some rs) txid) ≡ true
      → (i : ℕ) × (r : Option (PostResult V)) × (get_elem? rs i ≡ some r) × Confirms r
  unfolding classify
  classify-positive [] p = absurd (ground arith)
  classify-positive (r ∷ rs) p = scan-positive false false (r ∷ rs) p

  -- A result that decides nothing at once.
  abbrev pub IsOpen : Option (PostResult V) → Type 0
  IsOpen r =
      (judge stringify txid r ≡ service_trouble)
      ⊎ (judge stringify txid r ≡ status_trouble)
      ⊎ (judge stringify txid r ≡ silent)

  abbrev pub HasServiceTrouble : List (Option (PostResult V)) → Type 0
  HasServiceTrouble rs =
      (i : ℕ) × (r : Option (PostResult V)) × (get_elem? rs i ≡ some r)
      × (judge stringify txid r ≡ service_trouble)
