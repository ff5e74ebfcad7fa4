-- ===== src/Jobs/Stopping.antt =====
-- How the workers end after `cancelJobs`.
use lu.Base.{ℕ, ◌≡◌, refl, ap, ◌∙◌, ◌==◌, false, List, [], ◌∷◌, arith}
use lu.Jobs.Types.{JobManager, erase_first}
use lu.Jobs.Manager.{cancel_jobs, remove_worker, Next, takes, sleeps, quits, get_next_job}

-- What a worker does behind its turn of `getNextJob`: it removes itself if its loop has ended.
abbrev pub then_remove : ℕ → JobManager × Next → JobManager
then_remove w (m, takes job) = m
then_remove w (m, sleeps) = m
then_remove w (m, quits) = remove_worker w m

-- Each of some workers asks for its next job, one after the other.
abbrev pub ask_all : ℕ → List ℕ → JobManager → JobManager
ask_all cores [] m = m
ask_all cores (w ∷ ws) m = ask_all cores ws (then_remove w (get_next_job cores m))

asks_when_stopped :
    (cores : ℕ) (m : JobManager) → m.running ≡ false → get_next_job cores m ≡ (m, quits)
unfolding get_next_job
asks_when_stopped cores m e = ground (arith, e)

remove_worker-first :
    (w : ℕ) (ws : List ℕ) (m : JobManager) → m.workers ≡ w ∷ ws → (remove_worker w m).workers ≡ ws
unfolding remove_worker erase_first
remove_worker-first w ws m e = ap (erase_first (λ v. v == w)) e ∙ ground arith

remove_worker-stopped : (w : ℕ) (m : JobManager) → (remove_worker w m).running ≡ m.running
unfolding remove_worker
remove_worker-stopped w m = refl

ask_all-empty :
    (cores : ℕ) (ws : List ℕ) (m : JobManager)
    → m.running ≡ false
    → m.workers ≡ ws
    → (ask_all cores ws m).workers ≡ []
ask_all-empty cores [] m e f = f
ask_all-empty cores (w ∷ ws) m e f =
    ap (λ r. (ask_all cores ws (then_remove w r)).workers) (asks_when_stopped cores m e)
    ∙ ask_all-empty cores ws (remove_worker w m) (remove_worker-stopped w m ∙ e)
        (remove_worker-first w ws m f)

-- After the locked part of `cancelJobs`, once every worker has asked for its next job and removed
-- itself, each in the order in which it was started, no worker is left, so the last loop of
-- `cancelJobs` ends.
pub cancel_jobs-ask_all :
    (cores : ℕ) (m : JobManager) → (ask_all cores m.workers (cancel_jobs m).0).workers ≡ []
unfolding cancel_jobs
cancel_jobs-ask_all cores m = ask_all-empty cores m.workers (cancel_jobs m).0 refl refl
