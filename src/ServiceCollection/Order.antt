-- ===== src/ServiceCollection/Order.antt =====
-- The order of the providers in ServiceCollection.ts, and the rotation of the index.
use Prim.Native.String.{String}
use mathlib.Core.List.{Perm, perm_middle, append-nil}
use mathlib.Core.List.Perm
use text.Mathlib.Text.{◌==◌ as str_eq}
use wallet_toolbox_rocksdb.Base.{
  ℕ, zero, suc, ◌+◌, ◌%◌, ◌<◌, ◌≡◌, refl, ap, ◌∙◌, inl, inr, true, false, Option, none, some, List,
  [], ◌∷◌, ◌++◌, arith, Option-cases, Bool-cases, ◌==◌,
}
use native.Mathlib.Nat.{mod-lt, mod-add-mod}
use wallet_toolbox_rocksdb.ServiceCollection.{
  Named, ServiceToCall, ServiceCollection, move_to_last, move_service_to_last, count, next,
}

perm_last {ℓ} : {A : Type ℓ} (xs : List A) (x : A) → Perm (xs ++ x ∷ []) (x ∷ xs)
perm_last xs x = rw (append-nil xs) at (perm_middle {a = x} xs [])

module _ {ℓ} {T : Type ℓ} where
  -- Moving a provider to the end: everything before it stays in place, everything behind it moves
  -- up, and it comes last.
  pub move_to_last_splits :
      (name : String) (ss out : List (Named T))
      → move_to_last name ss ≡ some out
      → (xs : List (Named T)) × (s : Named T) × (ys : List (Named T)) × (ss ≡ xs ++ s ∷ ys)
        × (str_eq s.name name ≡ true)
        × (out ≡ xs ++ (ys ++ s ∷ []))
  unfolding move_to_last
  move_to_last_splits name [] out e = cc
  move_to_last_splits name (s ∷ ss) out e = elim (Bool-cases (str_eq s.name name)) [
    | inl hit ↦ ([], s, ss, refl, hit, ground arith)
    | inr miss ↦ elim (Option-cases (move_to_last name ss)) [
      | inl missing ↦ absurd (ground arith)
      | inr (rest, found) ↦
          let (xs, t, ys, p, q, r) = move_to_last_splits name ss rest found in
          let o : out ≡ s ∷ rest = ground arith in
          (s ∷ xs, t, ys, ap (◌∷◌ s) p, q, o ∙ ap (◌∷◌ s) r)
    ]
  ]

  -- `moveServiceToLast` only reorders the providers.
  pub move_service_to_last-perm :
      (stc : ServiceToCall T) (c : ServiceCollection T)
      → Perm (move_service_to_last stc c).services c.services
  unfolding move_service_to_last
  move_service_to_last-perm stc c =
      elim (Option-cases (move_to_last stc.provider_name c.services)) [
        | inl missing ↦ rw (missing, move_service_to_last) (Perm.refl c.services)
        | inr (out, found) ↦
            let (xs, s, ys, p, q, r) = move_to_last_splits stc.provider_name c.services out found in
            rw (found, move_service_to_last) (rw (r, p) (Perm.append_left xs (perm_last ys s)))
      ]

  next-some :
      (c : ServiceCollection T)
      → 0 < count c
      → next c ≡ some (record c { index = (c.index + 1) % count c })
  unfolding next
  next-some c h = let p : (count c == 0) ≡ false = ground arith in rw p

  -- `next`, a number of times.
  abbrev pub advance : ℕ → ServiceCollection T → Option (ServiceCollection T)
  advance zero c = some c
  advance (suc n) c = elim (next c) [ none ↦ none | some d ↦ advance n d ]

  -- From a valid index, `n` calls of `next` end `n` places further, around the list, so that
  -- as many calls as there are providers come back to where they began.
  pub advance_lem :
      (n : ℕ) (c : ServiceCollection T)
      → c.index < count c
      → advance n c ≡ some (record c { index = (c.index + n) % count c })
  advance_lem zero c h = let p : (c.index + 0) % count c ≡ c.index = grind arith in rw p
  advance_lem (suc n) c h =
      let k = count c in
      let d = record c { index = (c.index + 1) % k } in
      let p : ((c.index + 1) % k + n) % k ≡ (c.index + suc n) % k =
        mod-add-mod (c.index + 1) k n ∙ ap (λ i. i % k) (omega arith) in
      rw (next-some c (omega arith), advance)
        (advance_lem n d (mod-lt (c.index + 1) (omega arith))
          ∙ ap (λ i. some (record c { index = i })) p)
