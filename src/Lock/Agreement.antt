-- ===== src/Lock/Agreement.antt =====
-- The fields of SingleWriterMultiReaderLock.ts agree with the tasks that are inside, in every run.
use wallet_toolbox_rocksdb.Base.{
  ℕ, suc, ◌+◌, ◌-◌, ◌<◌, ◌≡◌, refl, inl, inr, true, false, ◌||◌, List, [], ◌∷◌, ◌++◌, arith, length,
  Bool-cases, ltb,
}
use wallet_toolbox_rocksdb.Lock.{
  Task, reader, writer, Lock, new, wake_readers, wake_next, check_queues, enter_read, enter_write,
  resume, leave, Picks, first, later, Step, enters_read, enters_write, resumes, leaves, Reach,
  start, next,
}

abbrev pub readers_in : List Task → ℕ
readers_in [] = 0
readers_in (reader t ∷ ts) = suc (readers_in ts)
readers_in (writer t ∷ ts) = readers_in ts

abbrev pub writers_in : List Task → ℕ
writers_in [] = 0
writers_in (reader t ∷ ts) = writers_in ts
writers_in (writer t ∷ ts) = suc (writers_in ts)

abbrev pub Counts : List Task → ℕ → ℕ → Type 0
Counts ts r w = (readers_in ts ≡ r) × (writers_in ts ≡ w)

pub Picks-reader :
    {t : ℕ} {all rest : List Task}
    → Picks (reader t) all rest
    → Counts all (readers_in rest + 1) (writers_in rest)
Picks-reader (first rest) = omega arith
Picks-reader (later (reader u) p) = omega (arith, Picks-reader p)
Picks-reader (later (writer u) p) = omega (arith, Picks-reader p)

pub Picks-writer :
    {t : ℕ} {all rest : List Task}
    → Picks (writer t) all rest
    → Counts all (readers_in rest) (writers_in rest + 1)
Picks-writer (first rest) = omega arith
Picks-writer (later (reader u) p) = omega (arith, Picks-writer p)
Picks-writer (later (writer u) p) = omega (arith, Picks-writer p)

readers_in-append : (ts us : List Task) → readers_in (ts ++ us) ≡ readers_in ts + readers_in us
readers_in-append [] us = omega arith
readers_in-append (reader t ∷ ts) us = omega (arith, readers_in-append ts us)
readers_in-append (writer t ∷ ts) us = omega (arith, readers_in-append ts us)

writers_in-append : (ts us : List Task) → writers_in (ts ++ us) ≡ writers_in ts + writers_in us
writers_in-append [] us = omega arith
writers_in-append (reader t ∷ ts) us = omega (arith, writers_in-append ts us)
writers_in-append (writer t ∷ ts) us = omega (arith, writers_in-append ts us)

pub wake_readers-Counts : (rs : List ℕ) → Counts (wake_readers rs) (length rs) 0
wake_readers-Counts [] = omega arith
wake_readers-Counts (r ∷ rs) = omega (arith, wake_readers-Counts rs)

-- The fields agree with who is inside.
pub record Agrees (l : Lock) : Type 0 where
  pub counted : l.readers ≡ readers_in l.inside
  pub active : l.writer_active ≡ true → 0 < writers_in l.inside

pub wake_next-keeps :
    (ws rs : List ℕ) (l : Lock)
    → ((wake_next ws rs l).readers ≡ l.readers)
      × ((wake_next ws rs l).writer_active ≡ l.writer_active)
      × ((wake_next ws rs l).inside ≡ l.inside)
unfolding wake_next
wake_next-keeps (w ∷ ws) rs l = (refl, refl, refl)
wake_next-keeps [] [] l = (refl, refl, refl)
wake_next-keeps [] (r ∷ rs) l = (refl, refl, refl)

pub check_queues-Agrees : (l : Lock) → Agrees l → Agrees (check_queues l)
unfolding check_queues
check_queues-Agrees l a = elim (Bool-cases (l.writer_active || ltb 0 l.readers)) [
  | inl busy ↦ rw (busy, check_queues) a
  | inr idle ↦
      let (p, q, r) = wake_next-keeps l.writer_queue l.reader_queue l in
      rw (idle, check_queues)
        (record { counted = rw (p, r) a.counted; active = rw (q, r) a.active })
]

-- The lock as `leave` has it before it checks the queues.
abbrev pub without : Task → List Task → Lock → Lock
without (reader t) rest l = record l { readers = l.readers - 1; inside = rest }
without (writer t) rest l = record l { writer_active = false; inside = rest }

pub without-Agrees :
    (t : Task) {rest : List Task} (l : Lock)
    → Picks t l.inside rest
    → Agrees l
    → Agrees (without t rest l)
without-Agrees (reader t) l p a = record {
  counted = omega (arith, a.counted, Picks-reader p);
  active = λ h. omega (arith, a.active h, Picks-reader p);
}
without-Agrees (writer t) l p a = record {
  counted = omega (arith, a.counted, Picks-writer p);
  active = λ h. cc;
}

pub Step-Agrees : {l m : Lock} → Step l m → Agrees l → Agrees m
unfolding enter_read enter_write resume leave
Step-Agrees {l} (enters_read t) a = ground arith
Step-Agrees {l} (enters_write t) a = ground arith
Step-Agrees {l} (resumes (reader t) p) a = record {
  counted = omega (arith, a.counted);
  active = a.active;
}
Step-Agrees {l} (resumes (writer t) p) a = record { counted = a.counted; active = λ _. omega arith }
Step-Agrees {l} (leaves (reader t) {rest} p) a =
    check_queues-Agrees (without (reader t) rest l) (without-Agrees (reader t) l p a)
Step-Agrees {l} (leaves (writer t) {rest} p) a =
    check_queues-Agrees (without (writer t) rest l) (without-Agrees (writer t) l p a)

pub Reach-Agrees : {l : Lock} → Reach l → Agrees l
unfolding new
Reach-Agrees start = record { counted = refl; active = λ h. cc }
Reach-Agrees (next r s) = Step-Agrees s (Reach-Agrees r)
