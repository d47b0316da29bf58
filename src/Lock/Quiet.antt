-- ===== src/Lock/Quiet.antt =====
-- Who is inside together, for SingleWriterMultiReaderLock.ts, when resolved promises are served
-- before anything else.
use wallet_toolbox_rocksdb.Base.{
  ℕ, ◌+◌, ◌-◌, ◌≤◌, ◌<◌, ◌≡◌, refl, ◌⊎◌, inl, inr, false, not, ◌&&◌, ◌||◌, List, [], ◌∷◌, arith,
  length, Bool-cases, ltb, ◌==◌,
}
use wallet_toolbox_rocksdb.Lock.{
  Task, reader, writer, Lock, new, wake_next, check_queues, enter_read, enter_write, resume, leave,
  Picks,
}
use wallet_toolbox_rocksdb.Lock.Agreement.{
  Agrees, readers_in, writers_in, Picks-reader, Picks-writer, wake_readers-Counts, wake_next-keeps,
}

-- Runs in which a resolved promise is served before anything else: no task enters or leaves while
-- one is woken.
pub data QuietStep (l : Lock) : Lock → Type 0 where
  enters_read : (t : ℕ) → l.woken ≡ [] → QuietStep l (enter_read t l)
  enters_write : (t : ℕ) → l.woken ≡ [] → QuietStep l (enter_write t l)
  resumes : (t : Task) {rest : List Task} → Picks t l.woken rest → QuietStep l (resume t rest l)
  leaves :
      (t : Task) {rest : List Task}
      → l.woken ≡ []
      → Picks t l.inside rest
      → QuietStep l (leave t rest l)

pub data QuietReach : Lock → Type 0 where
  start : QuietReach new
  next : {l m : Lock} → QuietReach l → QuietStep l m → QuietReach m

pub record IsExclusive (l : Lock) : Type 0 where
  pub agrees : Agrees l
  pub inactive : l.writer_active ≡ false → writers_in l.inside ≡ 0
  pub one : writers_in l.inside + writers_in l.woken ≤ 1
  pub alone :
      0 < writers_in l.inside + writers_in l.woken → readers_in l.inside + readers_in l.woken ≡ 0

wake_next-woken :
    (ws rs : List ℕ) (l : Lock)
    → l.woken ≡ []
    → (writers_in (wake_next ws rs l).woken ≡ 0)
      ⊎ ((writers_in (wake_next ws rs l).woken ≡ 1) × (readers_in (wake_next ws rs l).woken ≡ 0))
unfolding wake_next
wake_next-woken (w ∷ ws) rs l e = inr (rw e (omega arith, omega arith))
wake_next-woken [] [] l e = inl (rw e (omega arith))
wake_next-woken [] (r ∷ rs) l e = inl (rw e (omega (arith, wake_readers-Counts rs)))

check_queues-IsExclusive : (l : Lock) → l.woken ≡ [] → IsExclusive l → IsExclusive (check_queues l)
unfolding check_queues
check_queues-IsExclusive l e v = elim (Bool-cases (l.writer_active || ltb 0 l.readers)) [
  | inl busy ↦ rw (busy, check_queues) v
  | inr idle ↦
      let (p, q, r) = wake_next-keeps l.writer_queue l.reader_queue l in
      let none_active : l.writer_active ≡ false = ground arith in
      let no_writers = v.inactive none_active in
      let no_readers : readers_in l.inside ≡ 0 = ground (arith, v.agrees.counted) in
      let w = wake_next-woken l.writer_queue l.reader_queue l e in
      rw (idle, check_queues)
        (record {
          agrees = record {
            counted = rw (p, r) v.agrees.counted;
            active = rw (q, r) v.agrees.active;
          };
          inactive = λ h. rw r no_writers;
          one = rw r (omega arith);
          alone = rw r (λ h. omega arith);
        })
]

QuietStep-IsExclusive : {l m : Lock} → QuietStep l m → IsExclusive l → IsExclusive m
unfolding enter_read enter_write resume leave
QuietStep-IsExclusive {l} (enters_read t e) v =
    elim (Bool-cases (not l.writer_active && length l.writer_queue == 0)) [
      | inl free ↦
          let idle : l.writer_active ≡ false = ground arith in
          let no_writers = v.inactive idle in
          rw (free, enter_read)
            (record {
              agrees = record {
                counted = omega (arith, v.agrees.counted);
                active = λ h. v.agrees.active h;
              };
              inactive = λ h. no_writers;
              one = omega (arith, v.one);
              alone = rw e (λ h. omega arith);
            })
      | inr busy ↦
          rw (busy, enter_read)
            (record {
              agrees = record { counted = v.agrees.counted; active = v.agrees.active };
              inactive = v.inactive;
              one = v.one;
              alone = v.alone;
            })
    ]
QuietStep-IsExclusive {l} (enters_write t e) v =
    elim (Bool-cases (not l.writer_active && l.readers == 0)) [
      | inl free ↦
          let idle : l.writer_active ≡ false = ground arith in
          let no_writers = v.inactive idle in
          let no_readers : readers_in l.inside ≡ 0 = ground (arith, v.agrees.counted) in
          rw (free, enter_write)
            (record {
              agrees = record { counted = v.agrees.counted; active = λ h. omega arith };
              inactive = λ h. cc;
              one = rw e (omega arith);
              alone = rw e (λ h. omega arith);
            })
      | inr busy ↦
          rw (busy, enter_write)
            (record {
              agrees = record { counted = v.agrees.counted; active = v.agrees.active };
              inactive = v.inactive;
              one = v.one;
              alone = v.alone;
            })
    ]
QuietStep-IsExclusive {l} (resumes (reader t) p) v =
    let c = Picks-reader p in
    record {
      agrees = record { counted = omega (arith, v.agrees.counted); active = v.agrees.active };
      inactive = v.inactive;
      one = omega (arith, v.one);
      alone = λ h. absurd (omega (arith, v.alone (omega arith)));
    }
QuietStep-IsExclusive {l} (resumes (writer t) p) v =
    let c = Picks-writer p in
    let quiet = v.alone (omega arith) in
    record {
      agrees = record { counted = v.agrees.counted; active = λ h. omega arith };
      inactive = λ h. cc;
      one = omega (arith, v.one);
      alone = λ h. omega arith;
    }
QuietStep-IsExclusive {l} (leaves (reader t) {rest} e p) v =
    check_queues-IsExclusive (record l { readers = l.readers - 1; inside = rest }) e
      (let c = Picks-reader p in
        record {
          agrees = record {
            counted = omega (arith, v.agrees.counted);
            active = λ h. omega (arith, v.agrees.active h);
          };
          inactive = λ h. omega (arith, v.inactive h);
          one = omega (arith, v.one);
          alone = λ h. absurd (omega (arith, v.alone (omega arith)));
        })
QuietStep-IsExclusive {l} (leaves (writer t) {rest} e p) v =
    check_queues-IsExclusive (record l { writer_active = false; inside = rest }) e
      (let c = Picks-writer p in
        let quiet = v.alone (omega arith) in
        record {
          agrees = record { counted = omega (arith, v.agrees.counted); active = λ h. cc };
          inactive = λ h. omega (arith, v.one);
          one = omega (arith, v.one);
          alone = λ h. omega arith;
        })

QuietReach-IsExclusive : {l : Lock} → QuietReach l → IsExclusive l
unfolding new
QuietReach-IsExclusive start = record {
  agrees = record { counted = refl; active = λ h. cc };
  inactive = λ h. refl;
  one = omega arith;
  alone = λ h. refl;
}
QuietReach-IsExclusive (next r s) = QuietStep-IsExclusive s (QuietReach-IsExclusive r)

-- In every run in which no task calls the lock, and no task inside leaves it, while a woken task has yet
-- to resume: at most one writer is inside, and then no reader is.
pub quiet_exclusion :
    {l : Lock}
    → QuietReach l
    → (writers_in l.inside ≤ 1) × ((writers_in l.inside ≡ 0) ⊎ (readers_in l.inside ≡ 0))
quiet_exclusion r =
    let v = QuietReach-IsExclusive r in (omega (arith, v.one), grind (arith, v.alone))
