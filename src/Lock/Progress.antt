-- ===== src/Lock/Progress.antt =====
-- Waiting tasks and races of SingleWriterMultiReaderLock.ts, over every order of steps.
use wallet_toolbox_rocksdb.Base.{
  ℕ, ◌+◌, ◌<◌, ◌≡◌, refl, ap, inl, inr, true, false, not, ◌&&◌, ◌||◌, List, [], ◌∷◌, arith, length,
  length-append, Bool-cases, ltb, ◌==◌,
}
use wallet_toolbox_rocksdb.Lock.{
  Task, reader, writer, Lock, new, wake_readers, wake_next, check_queues, enter_read, enter_write,
  resume, leave, Picks, Step, enters_read, enters_write, resumes, leaves, Reach, start, next,
}
use wallet_toolbox_rocksdb.Lock.Agreement.{
  Agrees, readers_in, writers_in, without, without-Agrees, Reach-Agrees,
}

-- No task waits unless another is inside, or is woken.
abbrev Attended : Lock → Type 0
Attended l =
    0 < length l.reader_queue + length l.writer_queue → 0 < length l.inside + length l.woken

readers_in-le : (ts : List Task) → readers_in ts + writers_in ts ≡ length ts
readers_in-le [] = omega arith
readers_in-le (reader t ∷ ts) = omega (arith, readers_in-le ts)
readers_in-le (writer t ∷ ts) = omega (arith, readers_in-le ts)

wake_next-Attended :
    (ws rs : List ℕ) (l : Lock)
    → l.writer_queue ≡ ws
    → l.reader_queue ≡ rs
    → Attended (wake_next ws rs l)
unfolding wake_next
wake_next-Attended (w ∷ ws) rs l e f h = omega (arith, length-append l.woken (writer w ∷ []))
wake_next-Attended [] [] l e f h = absurd (omega (arith, ap length e, ap length f))
wake_next-Attended [] (r ∷ rs) l e f h =
    omega (arith, length-append l.woken (wake_readers (r ∷ rs)))

check_queues-Attended : (l : Lock) → Agrees l → Attended (check_queues l)
unfolding check_queues
check_queues-Attended l a = elim (Bool-cases (l.writer_active || ltb 0 l.readers)) [
  | inl busy ↦
      rw (busy, check_queues) (λ h. ground (arith, a.counted, a.active, readers_in-le l.inside))
  | inr idle ↦
      rw (idle, check_queues) (wake_next-Attended l.writer_queue l.reader_queue l refl refl)
]

Step-Attended : {l m : Lock} → Step l m → Agrees l → Attended l → Attended m
unfolding enter_read enter_write resume leave
Step-Attended {l} (enters_read t) a v =
    elim (Bool-cases (not l.writer_active && length l.writer_queue == 0)) [
      | inl free ↦ rw (free, enter_read) (λ h. omega arith)
      | inr busy ↦ rw (busy, enter_read) (λ h. ground (arith, v, a.active, readers_in-le l.inside))
    ]
Step-Attended {l} (enters_write t) a v = elim (Bool-cases (not l.writer_active && l.readers == 0)) [
  | inl free ↦ rw (free, enter_write) (λ h. omega arith)
  | inr busy ↦
      rw (busy, enter_write) (λ h. ground (arith, a.counted, a.active, readers_in-le l.inside))
]
Step-Attended {l} (resumes (reader t) p) a v = λ h. omega arith
Step-Attended {l} (resumes (writer t) p) a v = λ h. omega arith
Step-Attended {l} (leaves (reader t) {rest} p) a v =
    check_queues-Attended (without (reader t) rest l) (without-Agrees (reader t) l p a)
Step-Attended {l} (leaves (writer t) {rest} p) a v =
    check_queues-Attended (without (writer t) rest l) (without-Agrees (writer t) l p a)

Reach-Attended : {l : Lock} → Reach l → Attended l
unfolding new
Reach-Attended start = λ h. absurd (omega arith)
Reach-Attended (next r s) = Step-Attended s (Reach-Agrees r) (Reach-Attended r)

-- In every reachable state, whatever the order of the steps so far: if a task waits in one of the
-- two queues, then some task is inside or woken, whose leaving looks at the queues again.
pub no_lost_wakeup :
    {l : Lock}
    → Reach l
    → 0 < length l.reader_queue + length l.writer_queue
    → 0 < length l.inside + length l.woken
no_lost_wakeup r h = Reach-Attended r h

-- In every reachable state where a writer has been woken and not yet resumed, no writer is active
-- and no reader is counted: some reachable state has that writer and a second writer `t` inside at
-- once, beside whoever was inside.
pub woken_writer_race :
    (l : Lock) (w t : ℕ) (rest : List Task)
    → Reach l
    → Picks (writer w) l.woken rest
    → l.writer_active ≡ false
    → l.readers ≡ 0
    → (m : Lock) × Reach m × (m.inside ≡ writer w ∷ writer t ∷ l.inside)
unfolding enter_write resume
woken_writer_race l w t rest r p idle none_in =
    let free : (not l.writer_active && l.readers == 0) ≡ true = ground arith in
    let e : enter_write t l ≡ record l { writer_active = true; inside = writer t ∷ l.inside } =
      rw (free, enter_write) in
    let p' : Picks (writer w) (enter_write t l).woken rest = rw e p in
    (
      resume (writer w) rest (enter_write t l),
      next (next r (enters_write t)) (resumes (writer w) p'),
      rw e refl,
    )
