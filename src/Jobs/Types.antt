-- ===== src/Jobs/Types.antt =====
-- include/thread/Job.h and JobManager.h: priorities, work items and the manager's state. A job, a
-- worker and a callback object are known by their addresses.
use lu.Base.{ℕ, ◌+◌, ◌==◌, Bool, if◌then◌else◌, List, [], ◌∷◌, Option, none, some}

pub data Priority : Type 0 where
  low_pausable low normal high dedicated : Priority

abbrev pub index : Priority → ℕ
index low_pausable = 0
index low = 1
index normal = 2
index high = 3
index dedicated = 4

-- `JobManager::WorkItem`
pub record WorkItem : Type 0 where
  pub job : ℕ
  pub id : ℕ
  pub user_call_back : Option ℕ
  pub priority : Priority

-- The state that `m_section` guards.
pub record JobManager : Type 0 where
  pub job_counter : ℕ
  pub pause_jobs : Bool
  pub running : Bool
  pub job_queue : Priority → List WorkItem
  pub processing : List WorkItem
  pub workers : List ℕ

-- What the manager does outside its state, in order: `delete`, calls of a callback, `notify_all`, and
-- `new JobWorker`.
pub data Event : Type 0 where
  freed : ℕ → Event
  on_job_abort : ℕ → ℕ → ℕ → Event
  on_job_complete : ℕ → ℕ → Event
  on_job_progress : ℕ → ℕ → ℕ → ℕ → ℕ → Event
  notify_all : Event
  new_worker : ℕ → Event

-- `std::find` by a predicate, and `erase` of what it finds.
module _ {A : Type 0} (p : A → Bool) where
  unfoldable pub find : List A → Option A
  find [] = none
  find (x ∷ xs) = if p x then some x else find xs

  unfoldable pub erase_first : List A → List A
  erase_first [] = []
  erase_first (x ∷ xs) = if p x then xs else x ∷ erase_first xs

  unfoldable pub update_first : (A → A) → List A → List A
  update_first f [] = []
  update_first f (x ∷ xs) = if p x then f x ∷ xs else x ∷ update_first f xs

  unfoldable pub count : List A → ℕ
  count [] = 0
  count (x ∷ xs) = (if p x then 1 else 0) + count xs

-- `WorkItem::operator==`, for an id and for a job.
abbrev pub has_id : ℕ → WorkItem → Bool
has_id id w = w.id == id

abbrev pub has_job : ℕ → WorkItem → Bool
has_job job w = w.job == job

abbrev pub set_queue : JobManager → Priority → List WorkItem → JobManager
set_queue m p items = record m {
  job_queue = λ q. if index q == index p then items else m.job_queue q;
}

-- The priorities, as the loops over them go.
abbrev pub priorities : List Priority
priorities = low_pausable ∷ low ∷ normal ∷ high ∷ dedicated ∷ []

abbrev pub priorities_down : List Priority
priorities_down = dedicated ∷ high ∷ normal ∷ low ∷ low_pausable ∷ []
