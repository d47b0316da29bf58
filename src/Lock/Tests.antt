-- ===== src/Lock/Tests.antt =====
-- Runs of the model of SingleWriterMultiReaderLock.ts, and its theorems at concrete locks.
use wallet_toolbox_rocksdb.Base.{◌+◌, ◌≤◌, ◌<◌, ◌≡◌, refl, ◌⊎◌, false, [], ◌∷◌, arith, length}
use wallet_toolbox_rocksdb.Lock
use wallet_toolbox_rocksdb.Lock.{
  Task, reader, writer, Lock, new, check_queues, wake_next, enter_read, enter_write, leave, resume,
  first, Reach, Picks,
}
use wallet_toolbox_rocksdb.Lock.Agreement.{readers_in, writers_in}
use wallet_toolbox_rocksdb.Lock.Quiet.{QuietReach, quiet_exclusion}
use wallet_toolbox_rocksdb.Lock.Quiet
use wallet_toolbox_rocksdb.Lock.Progress.{no_lost_wakeup, woken_writer_race}

-- Writer 1 is inside, and writer 2 and reader 3 wait; then writer 1 leaves.
contended : Lock
contended = enter_read 3 (enter_write 2 (enter_write 1 new))

handed_over : Lock
unfolding contended
handed_over = leave (writer 1) [] contended

Lock_tests :
    (contended.writer_queue ≡ 2 ∷ [])
    × (contended.reader_queue ≡ 3 ∷ [])
    × (handed_over.woken ≡ writer 2 ∷ [])
    × (handed_over.writer_active ≡ false)
unfolding handed_over enter_read enter_write leave new wake_next
Lock_tests = (refl, refl, refl, refl)

contended-Reach : Reach contended
unfolding contended
contended-Reach =
    Reach.next
      (Reach.next (Reach.next Reach.start (Lock.Step.enters_write 1)) (Lock.Step.enters_write 2))
      (Lock.Step.enters_read 3)

handed_over-Reach : Reach handed_over
unfolding handed_over enter_read enter_write new
handed_over-Reach = Reach.next contended-Reach (Lock.Step.leaves (writer 1) (first []))

no_lost_wakeup_example : 0 < length contended.inside + length contended.woken
unfolding contended enter_read enter_write new
no_lost_wakeup_example = no_lost_wakeup contended-Reach (omega arith)

woken_writer_race_example :
    (m : Lock) × Reach m × (m.inside ≡ writer 2 ∷ writer 7 ∷ handed_over.inside)
unfolding handed_over enter_read enter_write leave new wake_next
woken_writer_race_example =
    woken_writer_race handed_over 2 7 [] handed_over-Reach (first []) refl refl

entered : Lock
entered = enter_write 1 new

quiet_exclusion_example :
    (writers_in entered.inside ≤ 1)
    × ((writers_in entered.inside ≡ 0) ⊎ (readers_in entered.inside ≡ 0))
unfolding entered new
quiet_exclusion_example =
    quiet_exclusion (QuietReach.next QuietReach.start (Quiet.QuietStep.enters_write 1 refl))
