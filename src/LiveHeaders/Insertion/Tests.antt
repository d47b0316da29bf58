-- ===== src/LiveHeaders/Insertion/Tests.antt =====
-- Runs of `insertHeader` of ChaintracksStorageNoDb.ts, and instances of what is proved of it.
use Prim.Native.String.{String}
use text.Mathlib.Text.{◌==◌ as str_eq}
use text.Mathlib.TextEquality.{eq_iff}
use wallet_toolbox_rocksdb.Base.{
  Bool-cases, ℕ, ◌-◌, ◌^◌, Bool, true, false, Option, none, some, [], ◌∷◌, ◌≡◌, refl, inl, inr, ◌⊎◌,
  ◌==◌, arith,
}
use wallet_toolbox_rocksdb.BlockHeader.{BlockHeader}
use wallet_toolbox_rocksdb.ChainWork.{convert_bits_to_work}
use wallet_toolbox_rocksdb.LiveHeaders.{
  LiveBlockHeader, LiveData, get_header, get_id, find_by_hash, active_tip,
  find_chain_tip_header_or_undefined,
}
use wallet_toolbox_rocksdb.LiveHeaders.Tree.{IsTree}
use wallet_toolbox_rocksdb.LiveHeaders.Insertion.{
  ok, initial_result, BulkFile, InsertHeaderResult, insert_header,
}
use wallet_toolbox_rocksdb.LiveHeaders.Insertion.Acceptance.{IsIndex}
use wallet_toolbox_rocksdb.LiveHeaders.Insertion.Sound.{IsSound, HasTip, child_of}
use wallet_toolbox_rocksdb.LiveHeaders.Insertion.Outcome.{insert_header-IsSound}
use wallet_toolbox_rocksdb.LiveHeaders.Runs.{no_data}
use wallet_toolbox_rocksdb.LiveHeaders.Insertion.Forks.{
  insert_header-detached, insert_header-two_tips,
}
use wallet_toolbox_rocksdb.Base.Int.{pos, ◌-ℤ◌}

abbrev pub flip_bits : ℕ → ℕ → ℕ
flip_bits n width = 2 ^ width - 1 - n

abbrev pub block : String → String → (height bits : ℕ) → BlockHeader
block hash previous height bits = record {
  version = 1;
  previous_hash = previous;
  merkle_root = "m";
  time = 0;
  bits = bits;
  nonce = 0;
  height = height;
  hash = hash;
}

-- Bits whose work is 2 and 4.
abbrev pub easy : ℕ
easy = 0x207fffff

abbrev hard : ℕ
hard = 0x203fffff

easy_work : convert_bits_to_work flip_bits easy ≡ 2
unfolding convert_bits_to_work
easy_work = refl

hard_work : convert_bits_to_work flip_bits hard ≡ 4
unfolding convert_bits_to_work
hard_work = refl

abbrev pub live :
    BlockHeader → (work id : ℕ) → Option ℕ → (is_tip is_active : Bool) → LiveBlockHeader
live b work id previous is_tip is_active = record {
  base = b;
  chain_work = work;
  is_chain_tip = is_tip;
  is_active = is_active;
  header_id = id;
  previous_header_id = previous;
}

-- Three headers: `b` is the active tip on `g`, and `side`, also on `g`, is marked as a chain tip if it was
-- the tip before.
abbrev pub g : LiveBlockHeader
g = live (block "g" "bulk" 100 easy) 10 1 none false true

abbrev pub side : (marked : Bool) → LiveBlockHeader
side marked = live (block "a" "g" 101 easy) 12 2 (some 1) marked false

abbrev pub a : LiveBlockHeader
a = side true

abbrev pub b : LiveBlockHeader
b = live (block "b" "g" 101 easy) 13 3 (some 1) true true

abbrev pub forked_at : (marked : Bool) → LiveData
forked_at marked = record {
  live_headers = g ∷ side marked ∷ b ∷ [];
  max_header_id = 3;
  tip_header_id = 3;
  hash_to_header_id = ("g", 1) ∷ ("a", 2) ∷ ("b", 3) ∷ [];
}

abbrev pub forked : LiveData
forked = forked_at true

forked-IsTree : (marked : Bool) → IsTree 3 (g ∷ side marked ∷ b ∷ [])
unfolding get_header
forked-IsTree marked = record {
  distinct = ground arith;
  bounded = λ i h e. ground arith;
  positive = λ i h e. ground arith;
  linked = λ i p h e l. (g, ground arith, ground arith, ground arith, ground arith, ground arith);
  childless = λ i p h q e l f. ground arith;
}

forked-HasTip : (marked : Bool) → HasTip b (forked_at marked)
unfolding get_header
forked-HasTip marked = (
  record {
    found = refl;
    active = refl;
    at_end = refl;
    chain = record {
      level = λ i j h k e f ah ak lv. ground arith;
      upward = λ i p h q e ah l f. ground arith;
      root = λ i j h k e ah l f ak. ground arith;
    };
    top = λ i h e ah. ground arith;
    lone = λ i h e ah c. ground arith;
    most = λ i h e. ground arith;
  },
  refl,
)

pub forked-cases :
    (marked : Bool) (i : ℕ) (h : LiveBlockHeader)
    → get_header i (forked_at marked).live_headers ≡ some h
    → ((h ≡ g) × (i ≡ 1)) ⊎ ((h ≡ side marked) × (i ≡ 2)) ⊎ ((h ≡ b) × (i ≡ 3))
unfolding get_header
forked-cases marked i h e = elim (Bool-cases (1 == i)) [
  | inl hit ↦ inl (ground arith, ground arith)
  | inr no_g ↦ elim (Bool-cases (2 == i)) [
    | inl hit ↦ inr (inl (ground arith, ground arith))
    | inr no_a ↦ inr (inr (ground arith, ground arith))
  ]
]

forked-IsIndex :
    (marked : Bool) → IsIndex (forked_at marked).live_headers (forked_at marked).hash_to_header_id
unfolding get_header get_id
forked-IsIndex marked = record {
  known = λ i h e. elim (forked-cases marked i h e) [
    | inl (same, at) ↦ rw same (cc)
    | inr (inl (same, at)) ↦ rw same (cc)
    | inr (inr (same, at)) ↦ rw same (cc)
  ];
  stored = λ hash i e. elim (Bool-cases (str_eq "g" hash)) [
    | inl hit ↦ (g, ground arith, (eq_iff "g" hash).0 hit)
    | inr no_g ↦ elim (Bool-cases (str_eq "a" hash)) [
      | inl hit ↦ (side marked, ground arith, (eq_iff "a" hash).0 hit)
      | inr no_a ↦ elim (Bool-cases (str_eq "b" hash)) [
        | inl hit ↦ (b, ground arith, (eq_iff "b" hash).0 hit)
        | inr no_b ↦ absurd (ground arith)
      ]
    ]
  ];
}

pub forked-IsSound : (marked : Bool) → IsSound (forked_at marked)
forked-IsSound marked = record {
  tree = forked-IsTree marked;
  index = forked-IsIndex marked;
  tip = inr (b, forked-HasTip marked);
}

-- A header on the tip, and one on the old tip.
abbrev next : BlockHeader
next = block "c" "b" 102 easy

abbrev back : BlockHeader
back = block "c" "a" 102 easy

abbrev pub bulk : BulkFile
bulk = record { last_hash = "bulk"; last_chain_work = 8; first_height = 0; count = 100 }

switch_run :
    insert_header flip_bits none back (forked_at false)
    ≡ ok (
      record (forked_at false) {
        live_headers =
            g
            ∷ record (side false) { is_active = true }
            ∷ record b { is_active = false }
            ∷ live back 14 4 (some 2) true true
            ∷ [];
        max_header_id = 4;
        tip_header_id = 4;
        hash_to_header_id = ("g", 1) ∷ ("a", 2) ∷ ("b", 3) ∷ ("c", 4) ∷ [];
      },
      record initial_result {
        added = true;
        is_active_tip = true;
        reorg_depth = pos 1;
        prior_tip = some b;
        deactivated_headers = b ∷ [];
      },
    )
unfolding insert_header get_id find_by_hash find_chain_tip_header_or_undefined ◌-ℤ◌
switch_run = refl

next_regular :
    (o tip : LiveBlockHeader)
    → find_by_hash next.previous_hash forked.live_headers ≡ some o
    → o.is_active ≡ o.is_chain_tip
unfolding find_by_hash
next_regular o tip found = let is_b : b ≡ o = cc in rw (← is_b) refl

insert_header-IsSound_example :
    (s' : LiveData) × (r : InsertHeaderResult) × (insert_header flip_bits (some bulk) next forked
      ≡ ok (s', r))
    × IsSound s'
insert_header-IsSound_example =
    insert_header-IsSound flip_bits bulk next forked (forked-IsSound true)
      (λ o tip found at_tip more. next_regular o tip found)

abbrev c : LiveBlockHeader
c = live back 14 4 (some 2) true true

-- After the reorganisation back to `a`, `a` is not active.
abbrev reverted : LiveData
reverted = record {
  live_headers =
      g ∷ (record a { is_chain_tip = false } ∷ (record b { is_active = false } ∷ (c ∷ [])));
  max_header_id = 4;
  tip_header_id = 4;
  hash_to_header_id = ("g", 1) ∷ ("a", 2) ∷ ("b", 3) ∷ ("c", 4) ∷ [];
}

abbrev reverted_result : InsertHeaderResult
reverted_result = record initial_result {
  added = true;
  is_active_tip = true;
  reorg_depth = pos 1;
  prior_tip = some b;
  deactivated_headers = b ∷ [];
}

revert_run : insert_header flip_bits none back forked ≡ ok (reverted, reverted_result)
unfolding insert_header get_id find_by_hash find_chain_tip_header_or_undefined ◌-ℤ◌
revert_run = refl

insert_header-detached_example :
    (get_header 4 reverted.live_headers ≡ some (child_of flip_bits a back forked true))
    × (get_header 2 reverted.live_headers ≡ some (record a { is_chain_tip = false }))
    × ((child_of flip_bits a back forked true).is_active ≡ true)
    × ((child_of flip_bits a back forked true).previous_header_id ≡ some 2)
unfolding get_id find_by_hash convert_bits_to_work
insert_header-detached_example =
    insert_header-detached flip_bits forked (forked-IsSound true) back refl a b refl
      (forked-HasTip true) refl (omega arith) refl refl none reverted reverted_result revert_run
      refl

-- A header of much work beside the tip.
abbrev rival : BlockHeader
rival = block "c" "g" 101 hard

insert_header-two_tips_example :
    (s' : LiveData) × (r : InsertHeaderResult) × (insert_header flip_bits none rival forked
      ≡ ok (s', r))
    × (r.is_active_tip ≡ true)
    × (s'.tip_header_id ≡ 4)
    × (find_chain_tip_header_or_undefined s' ≡ some b)
    × (get_header 4 s'.live_headers ≡ some (child_of flip_bits g rival forked true))
    × (active_tip (child_of flip_bits g rival forked true) ≡ true)
unfolding get_id find_by_hash convert_bits_to_work
insert_header-two_tips_example =
    insert_header-two_tips flip_bits forked (forked-IsSound true) rival refl g b refl
      (forked-HasTip true) refl (omega arith) refl (ground arith) none

-- Two insertions, from no data.
abbrev pub one : LiveData
one = record {
  live_headers = live (block "g" "bulk" 100 easy) 10 1 none true true ∷ [];
  max_header_id = 1;
  tip_header_id = 1;
  hash_to_header_id = ("g", 1) ∷ [];
}

abbrev pub two : LiveData
two = record {
  live_headers =
      live (block "g" "bulk" 100 easy) 10 1 none false true
      ∷ (live (block "a" "g" 101 easy) 12 2 (some 1) true true ∷ []);
  max_header_id = 2;
  tip_header_id = 2;
  hash_to_header_id = ("g", 1) ∷ ("a", 2) ∷ [];
}

pub one_run :
    insert_header flip_bits (some bulk) (block "g" "bulk" 100 easy) no_data
    ≡ ok (one, record initial_result { is_active_tip = true; added = true })
unfolding insert_header get_id find_by_hash
one_run = refl

pub two_run :
    insert_header flip_bits (some bulk) (block "a" "g" 101 easy) one
    ≡ ok (
      two,
      record initial_result {
        added = true;
        is_active_tip = true;
        prior_tip = some (live (block "g" "bulk" 100 easy) 10 1 none true true);
      },
    )
unfolding insert_header get_id find_by_hash find_chain_tip_header_or_undefined ◌-ℤ◌
two_run = refl
