-- ===== src/Lock.antt =====
-- src/services/chaintracker/chaintracks/util/SingleWriterMultiReaderLock.ts.
-- A task is a call of `withReadLock` or `withWriteLock`, named by a number. Between two awaits a
-- task runs alone, so a step is what a task does up to its next wait: entering, being resumed
-- after its promise was resolved, or leaving when its function is done. `woken` holds the tasks
-- whose promise is resolved and that have not run since, in any order.
pub mod Agreement
pub mod Quiet
pub mod Progress
pub mod Tests
use wallet_toolbox_rocksdb.Base.{
  ℕ, suc, ◌-◌, ◌+◌, Bool, true, false, not, ◌&&◌, ◌||◌, List, [], ◌∷◌, ◌++◌, ltb, ◌==◌,
  if◌then◌else◌, length, ◌≡◌,
}

pub data Task : Type 0 where
  reader writer : ℕ → Task

-- The four fields of the class, and the tasks that run or are about to.
pub record Lock : Type 0 where
  pub readers : ℕ
  pub writer_active : Bool
  pub reader_queue : List ℕ
  pub writer_queue : List ℕ
  pub woken : List Task
  pub inside : List Task

pub new : Lock
new = record {
  readers = 0;
  writer_active = false;
  reader_queue = [];
  writer_queue = [];
  woken = [];
  inside = [];
}

abbrev pub wake_readers : List ℕ → List Task
wake_readers [] = []
wake_readers (r ∷ rs) = reader r ∷ wake_readers rs

pub wake_next : (writers readers : List ℕ) → Lock → Lock
wake_next (w ∷ ws) rs l = record l { writer_queue = ws; woken = l.woken ++ writer w ∷ [] }
wake_next [] [] l = l
wake_next [] (r ∷ rs) l = record l { reader_queue = []; woken = l.woken ++ wake_readers (r ∷ rs) }

pub check_queues : Lock → Lock
unfolding wake_next
check_queues l =
    if l.writer_active || ltb 0 l.readers then l else wake_next l.writer_queue l.reader_queue l

-- The call of `withReadLock` by task `t`, up to its first wait.
pub enter_read : ℕ → Lock → Lock
enter_read t l =
    if not l.writer_active && length l.writer_queue == 0
    then record l { readers = l.readers + 1; inside = reader t ∷ l.inside }
    else record l { reader_queue = l.reader_queue ++ t ∷ [] }

pub enter_write : ℕ → Lock → Lock
enter_write t l =
    if not l.writer_active && l.readers == 0
    then record l { writer_active = true; inside = writer t ∷ l.inside }
    else record l { writer_queue = l.writer_queue ++ t ∷ [] }

-- After `await promise`.
pub resume : Task → List Task → Lock → Lock
resume (reader t) rest l = record l {
  readers = l.readers + 1;
  woken = rest;
  inside = reader t ∷ l.inside;
}
resume (writer t) rest l = record l {
  writer_active = true;
  woken = rest;
  inside = writer t ∷ l.inside;
}

-- The `finally` block.
pub leave : Task → List Task → Lock → Lock
unfolding check_queues
leave (reader t) rest l = check_queues (record l { readers = l.readers - 1; inside = rest })
leave (writer t) rest l = check_queues (record l { writer_active = false; inside = rest })

-- `rest` is `all` without one occurrence of `t`.
pub data Picks (t : Task) : List Task → List Task → Type 0 where
  first : (rest : List Task) → Picks t (t ∷ rest) rest
  later : (u : Task) {all rest : List Task} → Picks t all rest → Picks t (u ∷ all) (u ∷ rest)

pub data Step (l : Lock) : Lock → Type 0 where
  enters_read : (t : ℕ) → Step l (enter_read t l)
  enters_write : (t : ℕ) → Step l (enter_write t l)
  resumes : (t : Task) {rest : List Task} → Picks t l.woken rest → Step l (resume t rest l)
  leaves : (t : Task) {rest : List Task} → Picks t l.inside rest → Step l (leave t rest l)

pub data Reach : Lock → Type 0 where
  start : Reach new
  next : {l m : Lock} → Reach l → Step l m → Reach m
