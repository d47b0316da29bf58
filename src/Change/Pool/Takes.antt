-- ===== src/Change/Pool/Takes.antt =====
-- The searches of `generateChangeSdkMakeStorage` in generateChange.ts take one spendable entry, and
-- a release gives it back.
use wallet_toolbox_rocksdb.Base.{
  ℕ, ◌+◌, ◌<◌, ◌≡◌, ◌≢◌, refl, ap, inl, inr, Bool, true, false, ◌&&◌, Option, none, some, List, [],
  ◌∷◌, arith, All, Bool-cases, Option-cases, ◌==◌, if◌then◌else◌,
}
use wallet_toolbox_rocksdb.Base.Int.{ℤ, pos, leb_ℤ, eqb_ℤ}
use wallet_toolbox_rocksdb.Change.Data.{ChangeInput}
use wallet_toolbox_rocksdb.Change.Pool.{
  StoredChange, allocate_first, allocate_last, allocate_exact, allocate_change_input,
  release_change_input,
}

-- How many entries are spendable.
unfoldable pub spendable_count : List StoredChange → ℕ
spendable_count [] = 0
spendable_count (c ∷ cs) = (if c.spendable then 1 else 0) + spendable_count cs

abbrev pub IsNew : ℕ → List StoredChange → Type 0
IsNew id cs = All (λ c. c.input.output_id ≢ id) cs

abbrev pub HasDistinctIds : List StoredChange → Type 0
HasDistinctIds [] = Unit
HasDistinctIds (c ∷ cs) = IsNew c.input.output_id cs × HasDistinctIds cs

-- `ds` is `cs` with the spendable entry of input `i` taken.
pub data Takes (i : ChangeInput) : List StoredChange → List StoredChange → Type 0 where
  here :
      (c d : StoredChange) (cs : List StoredChange)
      → c.input ≡ i
      → c.spendable ≡ true
      → d ≡ record c { spendable = false }
      → Takes i (c ∷ cs) (d ∷ cs)
  there : (c : StoredChange) {cs ds : List StoredChange} → Takes i cs ds → Takes i (c ∷ cs) (c ∷ ds)

allocate_first-Takes :
    (test : StoredChange → Bool) (cs : List StoredChange) (i : ChangeInput) (ds : List StoredChange)
    → ((c : StoredChange) → test c ≡ true → c.spendable ≡ true)
    → allocate_first test cs ≡ some (i, ds)
    → Takes i cs ds
unfolding allocate_first
allocate_first-Takes test [] i ds h e = cc
allocate_first-Takes test (c ∷ cs) i ds h e = elim (Bool-cases (test c)) [
  | inl hit ↦
      let p : ds ≡ record c { spendable = false } ∷ cs = ground arith in
      rw p (here c _ cs (ground arith) (h c hit) refl)
  | inr miss ↦ elim (Option-cases (allocate_first test cs)) [
    | inl none_left ↦ absurd (ground arith)
    | inr ((j, es), found) ↦
        let p : ds ≡ c ∷ es = ground arith in
        rw p (there c (allocate_first-Takes test cs i es h (ground arith)))
  ]
]

allocate_exact-Takes :
    (exact : Option ℤ) (cs : List StoredChange) (i : ChangeInput) (ds : List StoredChange)
    → allocate_exact exact cs ≡ some (i, ds)
    → Takes i cs ds
unfolding allocate_exact
allocate_exact-Takes none cs i ds e = cc
allocate_exact-Takes (some x) cs i ds e =
    allocate_first-Takes (λ c. c.spendable && eqb_ℤ (pos c.input.satoshis) x) cs i ds
      (λ c h. ground arith) e

allocate_last-Takes :
    (cs : List StoredChange) (i : ChangeInput) (ds : List StoredChange)
    → allocate_last cs ≡ some (i, ds)
    → Takes i cs ds
unfolding allocate_last
allocate_last-Takes [] i ds e = cc
allocate_last-Takes (c ∷ cs) i ds e = elim (Option-cases (allocate_last cs)) [
  | inr ((j, es), found) ↦
      let p : ds ≡ c ∷ es = ground arith in
      rw p (there c (allocate_last-Takes cs i es (ground arith)))
  | inl none_later ↦ elim (Bool-cases c.spendable) [
    | inl free ↦
        let p : ds ≡ record c { spendable = false } ∷ cs = ground arith in
        rw p (here c _ cs (ground arith) free refl)
    | inr taken ↦ absurd (ground arith)
  ]
]

-- Whichever of the three searches succeeds, one spendable entry is taken.
pub allocate_change_input-Takes :
    (target : ℤ) (exact : Option ℤ) (cs : List StoredChange) (i : ChangeInput)
    (ds : List StoredChange)
    → allocate_change_input target exact cs ≡ some (i, ds)
    → Takes i cs ds
unfolding allocate_change_input
allocate_change_input-Takes target exact cs i ds e = elim (Option-cases (allocate_exact exact cs)) [
  | inr ((j, es), found) ↦ allocate_exact-Takes exact cs i ds (ground arith)
  | inl no_exact ↦
      let over = λ (c : StoredChange). c.spendable && leb_ℤ target (pos c.input.satoshis) in
      elim (Option-cases (allocate_first over cs)) [
        | inr (r, found) ↦ allocate_first-Takes over cs i ds (λ c h. ground arith) (ground arith)
        | inl no_over ↦ allocate_last-Takes cs i ds (ground arith)
      ]
]

pub Takes-spendable_count :
    {i : ChangeInput} {cs ds : List StoredChange}
    → Takes i cs ds
    → spendable_count ds < spendable_count cs
unfolding spendable_count
Takes-spendable_count (here c d cs p q r) =
    rw (q, ap (λ (e : StoredChange). e.spendable) r) (omega arith)
Takes-spendable_count (there c t) = omega (arith, Takes-spendable_count t)

Takes-IsNew :
    {i : ChangeInput} {cs ds : List StoredChange} (id : ℕ)
    → Takes i cs ds
    → IsNew id cs
    → IsNew id ds
Takes-IsNew id (here c d cs p q r) n = (rw r n.0, n.1)
Takes-IsNew id (there c t) n = (n.0, Takes-IsNew id t n.1)

pub Takes-HasDistinctIds :
    {i : ChangeInput} {cs ds : List StoredChange}
    → Takes i cs ds
    → HasDistinctIds cs
    → HasDistinctIds ds
Takes-HasDistinctIds (here c d cs p q r) n = (rw r n.0, n.1)
Takes-HasDistinctIds (there c t) n = (Takes-IsNew _ t n.0, Takes-HasDistinctIds t n.1)

Takes-id :
    {i : ChangeInput} {cs ds : List StoredChange} (id : ℕ)
    → Takes i cs ds
    → IsNew id cs
    → i.output_id ≢ id
Takes-id id (here c d cs p q r) n = rw (← p) n.0
Takes-id id (there c t) n = Takes-id id t n.1

-- Releasing what was taken gives back the list.
pub Takes-release :
    {i : ChangeInput} {cs ds : List StoredChange}
    → Takes i cs ds
    → HasDistinctIds cs
    → release_change_input i.output_id ds ≡ some cs
unfolding release_change_input
Takes-release {i} (here c d cs p q r) n =
    let same : (d.input.output_id == i.output_id) ≡ true = ground arith in
    let taken : d.spendable ≡ false = ground arith in
    let back : record d { spendable = true } ≡ c = ground arith in rw (same, taken, back)
Takes-release {i} (there c t) n =
    let other : (c.input.output_id == i.output_id) ≡ false =
      ground (arith, Takes-id c.input.output_id t n.0) in
    rw (other, Takes-release t n.1)

release-IsNew :
    (k id : ℕ) (cs ds : List StoredChange)
    → release_change_input id cs ≡ some ds
    → IsNew k cs
    → IsNew k ds
unfolding release_change_input
release-IsNew k id [] ds e n = cc
release-IsNew k id (c ∷ cs) ds e n = elim (Bool-cases (c.input.output_id == id)) [
  | inl hit ↦ let p : ds ≡ record c { spendable = true } ∷ cs = ground arith in rw p n
  | inr miss ↦ elim (Option-cases (release_change_input id cs)) [
    | inl missing ↦ absurd (ground arith)
    | inr (es, found) ↦
        let p : ds ≡ c ∷ es = ground arith in rw p (n.0, release-IsNew k id cs es found n.1)
  ]
]

pub release-HasDistinctIds :
    (id : ℕ) (cs ds : List StoredChange)
    → release_change_input id cs ≡ some ds
    → HasDistinctIds cs
    → HasDistinctIds ds
unfolding release_change_input
release-HasDistinctIds id [] ds e n = cc
release-HasDistinctIds id (c ∷ cs) ds e n = elim (Bool-cases (c.input.output_id == id)) [
  | inl hit ↦ let p : ds ≡ record c { spendable = true } ∷ cs = ground arith in rw p n
  | inr miss ↦ elim (Option-cases (release_change_input id cs)) [
    | inl missing ↦ absurd (ground arith)
    | inr (es, found) ↦
        let p : ds ≡ c ∷ es = ground arith in
        rw p (
          release-IsNew c.input.output_id id cs es found n.0,
          release-HasDistinctIds id cs es found n.1,
        )
  ]
]
