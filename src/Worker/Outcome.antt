-- ===== src/Worker/Outcome.antt =====
-- What `fp_worker_handle_job` of src/worker.c makes of a job, on every path.
use ferretptimize.Common.{
  ℕ, ◌≡◌, refl, true, false, List, [], ◌∷◌, none, some, ◌==◌, if◌then◌else◌, arith, length,
  get_elem?, replicate, Bool-cases, Option-cases, inl, inr, ◌⊎◌,
}
use ferretptimize.Common.Int.{negsuc}
use ferretptimize.Common.Bytes.{codes}
use ferretptimize.Ferret.{
  EncodedImage, blank, Job, JobResult, max_outputs, free_result, release_first, free_job,
}
use ferretptimize.Image.{Image}
use ferretptimize.Worker.{CompressCode, EncodeTask}
use ferretptimize.Worker.Encode.{Codecs, is_ok}
use ferretptimize.Worker.Tasks.{job_tasks-AreOk}
use ferretptimize.Worker.Handle.{
  job_tasks, first_failure, fresh_result, Environment, run_tasks, prepare, finish, handle_job,
}
use ferretptimize.Worker.Finish.{
  lt_of_get_elem?, output_of, get_elem?-written, finish_failed, Finished, finish-Finished,
}

module _ (codecs : Codecs) (env : Environment) where
  finish-id : (job : Job) (image : Image) → (finish codecs env job image).0.id ≡ job.id
  unfolding finish free_result release_first
  finish-id job image = elim (Bool-cases (length (job_tasks job) == 0)) [
    | inl e ↦ rw e refl
    | inr some_task ↦
        elim (Option-cases (
          first_failure (job_tasks job)
            (run_tasks codecs (prepare env job image).0 (job_tasks job)))) [
              | inl e ↦ rw some_task (rw e refl)
              | inr (t, e) ↦ rw some_task (rw e refl)
            ]
  ]

  handle_job-releases :
      (job : Job) → (handle_job codecs env job).releases ≡ (if job.progress then 1 else 0)
  unfolding handle_job free_job
  handle_job-releases job = elim (Bool-cases env.result_ok) [
    | inr e ↦ rw e refl
    | inl e ↦ elim (Bool-cases (is_ok (codecs.decode_png job.content job.size).0)) [
      | inr bad ↦ rw e (rw bad refl)
      | inl ok ↦ rw e (rw ok refl)
    ]
  ]

  handle_job-none : (job : Job) → env.result_ok ≡ false → (handle_job codecs env job).result ≡ none
  unfolding handle_job
  handle_job-none job e = rw e refl

  handle_job-undecoded :
      (job : Job)
      → env.result_ok ≡ true
      → is_ok (codecs.decode_png job.content job.size).0 ≡ false
      → (handle_job codecs env job).result
        ≡ some (record (fresh_result job) { status = negsuc 0; message = codes "decode_error" })
  unfolding handle_job
  handle_job-undecoded job e bad = rw e (rw bad refl)

  handle_job-decoded :
      (job : Job)
      → env.result_ok ≡ true
      → is_ok (codecs.decode_png job.content job.size).0 ≡ true
      → (handle_job codecs env job).result
        ≡ some (finish codecs env job (codecs.decode_png job.content job.size).1).0
  unfolding handle_job
  handle_job-decoded job e ok = rw e (rw ok refl)

  -- A job's progress channel is released once, if it has one, whatever happens. With no memory for
  -- it there is no result. Otherwise the result has the job's id, and an upload that does not decode
  -- gives status -1 and no outputs; one that decodes gives -6 and no outputs when the job has no
  -- tasks, the status of the first task that fails and no outputs when one fails, and 0 otherwise,
  -- with as many outputs as tasks, each what its task's encoder wrote.
  pub handle_job_lem :
      (job : Job)
      → let handled = handle_job codecs env job in
        let (code, image) = codecs.decode_png job.content job.size in
        (handled.releases ≡ (if job.progress then 1 else 0))
        × ((env.result_ok ≡ false) × (handled.result ≡ none)
            ⊎ ((r : JobResult) × (handled.result ≡ some r)
                × (r.id ≡ job.id)
                × ((is_ok code ≡ false) × (r.status ≡ negsuc 0) × (r.output_count ≡ 0)
                    ⊎ (is_ok code ≡ true) × Finished codecs env (prepare env job image).0 job r)))
  handle_job_lem job = (
    handle_job-releases job,
    elim (Bool-cases env.result_ok) [
      | inr e ↦ inl (e, handle_job-none job e)
      | inl e ↦ elim (Bool-cases (is_ok (codecs.decode_png job.content job.size).0)) [
        | inr bad ↦ inr (_, handle_job-undecoded job e bad, refl, inl (bad, refl, refl))
        | inl ok ↦
            let image = (codecs.decode_png job.content job.size).1 in
            inr (
              _,
              handle_job-decoded job e ok,
              finish-id job image,
              inr (ok, finish-Finished codecs env job image),
            )
      ]
    ],
  )

  tasks_of_failure :
      (tasks : List EncodeTask) (ran : List (CompressCode × EncodedImage)) (t : EncodeTask)
      → first_failure tasks ran ≡ some t
      → (length tasks == 0) ≡ false
  unfolding first_failure
  tasks_of_failure [] ran t e = absurd (cc)
  tasks_of_failure (s ∷ ts) ran t e = ground arith

  -- When a task fails, the blocks that the other tasks' encoders wrote stay in the result's outputs,
  -- which count as none, so that neither the worker nor whoever frees the result frees them.
  pub failed_job_leaks :
      (job : Job) (image : Image) (t u : EncodeTask) (i : ℕ)
      → first_failure (job_tasks job) (run_tasks codecs (prepare env job image).0 (job_tasks job))
        ≡ some t
      → get_elem? (job_tasks job) i ≡ some u
      → let r = (finish codecs env job image).0 in
        (r.output_count ≡ 0)
        × (get_elem? (free_result r).outputs i
            ≡ some (output_of codecs (prepare env job image).0 u))
  unfolding free_result
  failed_job_leaks job image t u i e at =
      let tasks = job_tasks job in
      let (status, count, outputs) =
        finish_failed codecs env job image t (tasks_of_failure tasks _ t e) e in
      (
        count,
        rw count (
            rw outputs (
              get_elem?-written codecs (prepare env job image).0 tasks (replicate max_outputs blank)
                u i (grind (arith, lt_of_get_elem? tasks i u at, (job_tasks-AreOk job).0)) at)),
      )
