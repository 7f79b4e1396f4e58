-- ===== src/Worker/Finish.antt =====
-- What `fp_worker_handle_job` of src/worker.c makes of a decoded image.
use ferretptimize.Common.{
  ℕ, zero, suc, ◌<◌, ◌≡◌, refl, ap, true, false, List, [], ◌∷◌, ◌++◌, none, some, ◌==◌, arith, All,
  length, get_elem?, replicate, Bool-cases, Option-cases, inl, inr, ◌⊎◌,
}
use mathlib.Core.Option.{some_inj}
use ferretptimize.Common.Int.{pos, negsuc}
use ferretptimize.Ferret.{
  EncodedImage, blank, Job, JobResult, max_outputs, free_result, release_first,
}
use ferretptimize.Image.{Image}
use ferretptimize.Worker.{EncodeTask}
use ferretptimize.Worker.Encode.{Codecs, is_ok, encode_task_run}
use ferretptimize.Worker.Tasks.{job_tasks-AreOk}
use ferretptimize.Worker.Handle.{
  job_tasks, first_failure, written, Environment, run_tasks, prepare, finish,
}

pub lt_of_get_elem? :
    (tasks : List EncodeTask) (i : ℕ) (t : EncodeTask)
    → get_elem? tasks i ≡ some t
    → i < length tasks
lt_of_get_elem? [] i t e = absurd (cc)
lt_of_get_elem? (s ∷ ts) zero t e = omega arith
lt_of_get_elem? (s ∷ ts) (suc i) t e = omega (arith, lt_of_get_elem? ts i t e)

module _ (codecs : Codecs) where
  -- What a task leaves in its output.
  abbrev pub output_of : Image → EncodeTask → EncodedImage
  output_of image t = (encode_task_run codecs image t blank).1

  abbrev pub Succeeds : Image → EncodeTask → Type 0
  Succeeds image t = is_ok (encode_task_run codecs image t blank).0 ≡ true

  abbrev pub Fails : Image → EncodeTask → Type 0
  Fails image t = is_ok (encode_task_run codecs image t blank).0 ≡ false

  -- The task is the first of the list that fails.
  pub record IsFirstFailure (image : Image) (tasks : List EncodeTask) (t : EncodeTask)
      : Type 0 where
    pub before : List EncodeTask
    pub after : List EncodeTask
    pub split : tasks ≡ before ++ (t ∷ after)
    pub earlier : All (Succeeds image) before
    pub failed : Fails image t

  first_failure-none :
      (image : Image) (tasks : List EncodeTask)
      → first_failure tasks (run_tasks codecs image tasks) ≡ none
      → All (Succeeds image) tasks
  unfolding first_failure run_tasks
  first_failure-none image [] e = tt
  first_failure-none image (t ∷ ts) e =
      elim (Bool-cases (is_ok (encode_task_run codecs image t blank).0)) [
        | inl ok ↦ (ok, first_failure-none image ts (ground (arith, e, ok)))
        | inr bad ↦ absurd (ground (arith, e, bad))
      ]

  first_failure-some :
      (image : Image) (tasks : List EncodeTask) (t : EncodeTask)
      → first_failure tasks (run_tasks codecs image tasks) ≡ some t
      → IsFirstFailure image tasks t
  unfolding first_failure run_tasks
  first_failure-some image [] t e = absurd (cc)
  first_failure-some image (s ∷ ts) t e =
      elim (Bool-cases (is_ok (encode_task_run codecs image s blank).0)) [
        | inl ok ↦
            let rest = first_failure-some image ts t (ground (arith, e, ok)) in
            record {
              before = s ∷ rest.before;
              after = rest.after;
              split = ap (◌∷◌ s) rest.split;
              earlier = (ok, rest.earlier);
              failed = rest.failed;
            }
        | inr bad ↦
            let same : s ≡ t = ground (arith, e, bad) in
            record {
              before = [];
              after = ts;
              split = rw same refl;
              earlier = tt;
              failed = rw (← same) bad;
            }
      ]

  pub get_elem?-written :
      (image : Image) (tasks : List EncodeTask) (outputs : List EncodedImage) (t : EncodeTask)
      (i : ℕ)
      → i < length outputs
      → get_elem? tasks i ≡ some t
      → get_elem? (written (run_tasks codecs image tasks) outputs) i ≡ some (output_of image t)
  unfolding written run_tasks
  get_elem?-written image [] outputs t i h e = absurd (cc)
  get_elem?-written image (s ∷ ts) [] t i h e = absurd (omega arith)
  get_elem?-written image (s ∷ ts) (o ∷ os) t zero h e =
      ap (λ (x : EncodeTask). some (output_of image x)) (some_inj.0 e)
  get_elem?-written image (s ∷ ts) (o ∷ os) t (suc i) h e =
      get_elem?-written image ts os t i (omega arith) e

  module _ (env : Environment) where
    -- What the result says, of the image that the tasks got.
    abbrev pub NoTask : Job → JobResult → Type 0
    NoTask job r = (job_tasks job ≡ []) × (r.status ≡ negsuc 5) × (r.output_count ≡ 0)

    abbrev pub OneFails : Image → Job → JobResult → Type 0
    OneFails image job r =
        (t : EncodeTask) × IsFirstFailure image (job_tasks job) t
        × (r.status ≡ t.failure_status)
        × (r.output_count ≡ 0)

    abbrev pub AllSucceed : Image → Job → JobResult → Type 0
    AllSucceed image job r =
        All (Succeeds image) (job_tasks job)
        × (r.status ≡ pos 0)
        × (r.output_count ≡ length (job_tasks job))
        × ((i : ℕ) (t : EncodeTask)
            → get_elem? (job_tasks job) i ≡ some t
            → get_elem? r.outputs i ≡ some (output_of image t))

    abbrev pub Finished : Image → Job → JobResult → Type 0
    Finished image job r = NoTask job r ⊎ OneFails image job r ⊎ AllSucceed image job r

    -- The two ways out of `finish` once there is a task.
    pub finish_ok :
        (job : Job) (image : Image)
        → (length (job_tasks job) == 0) ≡ false
        → first_failure (job_tasks job) (run_tasks codecs (prepare env job image).0 (job_tasks job))
          ≡ none
        → let r = (finish codecs env job image).0 in
          (r.status ≡ pos 0)
          × (r.output_count ≡ length (job_tasks job))
          × (r.outputs
              ≡ written
                  (run_tasks codecs (prepare env job image).0 (job_tasks job))
                  (replicate max_outputs blank))
    unfolding finish
    finish_ok job image some_task e = rw some_task (rw e (refl, refl, refl))

    pub finish_failed :
        (job : Job) (image : Image) (t : EncodeTask)
        → (length (job_tasks job) == 0) ≡ false
        → first_failure (job_tasks job) (run_tasks codecs (prepare env job image).0 (job_tasks job))
          ≡ some t
        → let r = (finish codecs env job image).0 in
          (r.status ≡ t.failure_status)
          × (r.output_count ≡ 0)
          × (r.outputs
              ≡ written
                  (run_tasks codecs (prepare env job image).0 (job_tasks job))
                  (replicate max_outputs blank))
    unfolding finish free_result release_first
    finish_failed job image t some_task e = rw some_task (rw e (refl, refl, refl))

    pub finish_empty :
        (job : Job) (image : Image)
        → (length (job_tasks job) == 0) ≡ true
        → let r = (finish codecs env job image).0 in (r.status ≡ negsuc 5) × (r.output_count ≡ 0)
    unfolding finish
    finish_empty job image no_task = rw no_task (refl, refl)

    nil_of_length : (tasks : List EncodeTask) → (length tasks == 0) ≡ true → tasks ≡ []
    nil_of_length [] e = refl
    nil_of_length (t ∷ ts) e = absurd (ground (arith, e))

    pub finish-Finished :
        (job : Job) (image : Image)
        → Finished (prepare env job image).0 job (finish codecs env job image).0
    finish-Finished job image = elim (Bool-cases (length tasks == 0)) [
      | inl e ↦ let ends = finish_empty job image e in inl (nil_of_length tasks e, ends.0, ends.1)
      | inr some_task ↦ elim (Option-cases (first_failure tasks (run_tasks codecs final tasks))) [
        | inl e ↦
            let (status, count, outputs) = finish_ok job image some_task e in
            inr (
              inr (
                first_failure-none final tasks e,
                status,
                count,
                λ i t at. rw outputs (
                    get_elem?-written final tasks (replicate max_outputs blank) t i
                      (grind (arith, lt_of_get_elem? tasks i t at, (job_tasks-AreOk job).0)) at),
              ))
        | inr (t, e) ↦
            let ends = finish_failed job image t some_task e in
            inr (inl (t, first_failure-some final tasks t e, ends.0, ends.1))
      ]
    ]
      where
        final : Image
        final = (prepare env job image).0

        tasks : List EncodeTask
        tasks = job_tasks job
