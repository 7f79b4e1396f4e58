-- ===== src/Worker/Tasks.antt =====
-- The tasks of a job: how many there are, and what they ask of the encoders.
use ferretptimize.Common.{
  ℕ, suc, ◌+◌, ◌≤◌, ◌<◌, ◌≡◌, refl, Bool, true, false, not, ◌&&◌, ◌||◌, List, [], ◌∷◌, ◌++◌, map,
  Option, none, some, ltb, leb, if◌then◌else◌, arith, All, length, take, Bool-cases, if_both, inl,
  inr,
}
use ferretptimize.Common.Int.{ℤ, pos, negsuc, ltb_ℤ, ◌≤ℤ◌}
use ferretptimize.Common.Bytes.{Bytes, codes, case_eq, str_eq, to_lower, eq_of_str_eq}
use Prim.Native.String.{String}
use ferretptimize.Ferret.{RequestedOutput, format_text, Job, max_outputs}
use ferretptimize.Server.Options.{is_known_target}
use ferretptimize.Worker.{
  EncodeFn, png_encode, png_more, png_quant, webp_encode, avif_encode, EncodeTask, clamp_int,
  expert_task, expert_tasks_from, build_expert_tasks, standard_tasks, should_run_task,
  job_tune_direction, is_empty, is_zero, by_tune, when_run, png_task, quant_task, webp_task,
  avif_task,
}
use ferretptimize.Worker.Encode.{more_levels}
use ferretptimize.Worker.Handle.{job_tasks}

abbrev pub IsBetween : ℤ → ℤ → ℤ → Type 0
IsBetween lo hi a = (lo ≤ℤ a) × (a ≤ℤ hi)

-- The range that each encoder's quality is kept in; for a PNG tuned to more, whose task has none of
-- its own, that of the levels it tries.
abbrev pub IsInRange : EncodeFn → ℤ → Type 0
IsInRange png_encode q = IsBetween (pos 1) (pos 9) q
IsInRange png_more q = (q ≡ pos 0) × All (IsBetween (pos 1) (pos 9)) more_levels
IsInRange png_quant q = IsBetween (pos 8) (pos 256) q
IsInRange webp_encode q = IsBetween (pos 10) (pos 100) q
IsInRange avif_encode q = IsBetween (pos 0) (pos 63) q

clamp_int-IsBetween :
    (a : ℤ) (lo hi : ℕ) → lo ≤ hi → IsBetween (pos lo) (pos hi) (clamp_int a (pos lo) (pos hi))
clamp_int-IsBetween (pos n) lo hi h = ground arith
clamp_int-IsBetween (negsuc n) lo hi h = ground arith

abbrev pub IsOkTask : EncodeTask → Type 0
IsOkTask t = IsInRange t.encode t.quality

abbrev IsOkChoice : Option EncodeTask → Type 0
IsOkChoice none = Unit
IsOkChoice (some t) = IsOkTask t

expert_task-IsOkChoice : (req : RequestedOutput) → IsOkChoice (expert_task req)
unfolding expert_task
expert_task-IsOkChoice req = if_both IsOkChoice (is_empty (format_text req)) tt (
    if_both IsOkChoice (case_eq (format_text req) (codes "png"))
      (clamp_int-IsBetween
        (if not (is_zero req.compression_level)
          then req.compression_level
          else if not (is_zero req.quality)
          then req.quality
          else pos 6)
        1 9 (omega arith))
      (if_both IsOkChoice
        (case_eq (format_text req) (codes "pngquant") || case_eq req.label (codes "pngquant q80"))
        (clamp_int-IsBetween
          (if not (is_zero req.quality)
            then req.quality
            else if not (is_zero req.compression_level)
            then req.compression_level
            else pos 128)
          8 256 (omega arith))
        (if_both IsOkChoice (case_eq (format_text req) (codes "webp"))
          (clamp_int-IsBetween (if not (is_zero req.quality) then req.quality else pos 90) 10 100
            (omega arith))
          (if_both IsOkChoice (case_eq (format_text req) (codes "avif"))
            (clamp_int-IsBetween (if not (is_zero req.quality) then req.quality else pos 28) 0 63
              (omega arith))
            tt))))

-- At most as many tasks as there are outputs, each in its encoder's range.
abbrev pub AreOk : ℕ → List EncodeTask → Type 0
AreOk count tasks = (count + length tasks ≤ max_outputs) × All IsOkTask tasks

add_task :
    (count : ℕ) (choice : Option EncodeTask) (same more : List EncodeTask)
    → count < max_outputs
    → IsOkChoice choice
    → AreOk count same
    → (suc count < max_outputs → AreOk (suc count) more)
    → AreOk count (elim choice [
      | none ↦ same
      | some task ↦ task ∷ (if leb max_outputs (suc count) then [] else more)
    ])
add_task count none same more h k s m = s
add_task count (some t) same more h k s m = elim (Bool-cases (leb max_outputs (suc count))) [
  | inl e ↦ rw e (omega arith, (k, tt))
  | inr e ↦ let rest = m (ground (arith, e)) in rw e (grind (arith, rest.0), (k, rest.1))
]

expert_tasks_from-AreOk :
    (count : ℕ) (reqs : List RequestedOutput)
    → count < max_outputs
    → AreOk count (expert_tasks_from count reqs)
unfolding expert_tasks_from
expert_tasks_from-AreOk count [] h = (omega arith, tt)
expert_tasks_from-AreOk count (req ∷ reqs) h =
    add_task count (expert_task req) _ _ h (expert_task-IsOkChoice req)
      (expert_tasks_from-AreOk count reqs h) (λ h'. expert_tasks_from-AreOk (suc count) reqs h')

when_run-AreOk :
    (count : ℕ) (b : Bool) (t : EncodeTask) (rest : List EncodeTask)
    → count < max_outputs
    → IsOkTask t
    → AreOk (suc count) rest
    → AreOk count (when_run b t ++ rest)
when_run-AreOk count true t rest h k r = (grind (arith, r.0), (k, r.1))
when_run-AreOk count false t rest h k r = (grind (arith, r.0), r.1)

png_choice-IsInRange :
    (more : Bool) (q : ℤ)
    → IsBetween (pos 1) (pos 9) q
    → IsInRange (if more then png_more else png_encode) (if more then pos 0 else q)
png_choice-IsInRange true q h = (refl, (omega arith, (omega arith, (omega arith, tt))))
png_choice-IsInRange false q h = h

standard_tasks-AreOk : (job : Job) → AreOk 0 (standard_tasks job)
unfolding standard_tasks
standard_tasks-AreOk job =
    let run : String → String → Bool = λ f l. should_run_task job (codes f) (codes l) in
    let tune : String → String → ℤ = λ f l. job_tune_direction job (codes f) (codes l) in
    let avif = when_run (run "avif" "medium") (avif_task job) in
    let webp = when_run (run "webp" "high") (webp_task job) ++ avif in
    let quant = when_run (run "png" "pngquant q80") (quant_task job) ++ webp in
    when_run-AreOk 0 (run "png" "lossless") (png_task job) quant (omega arith)
      (png_choice-IsInRange (ltb_ℤ (pos 0) (tune "png" "lossless")) _ (
        clamp_int-IsBetween (by_tune (tune "png" "lossless") (pos 9) (pos 1) (pos 5)) 1 9
          (omega arith)))
      (when_run-AreOk 1 (run "png" "pngquant q80") (quant_task job) webp (omega arith)
        (clamp_int-IsBetween (by_tune (tune "png" "pngquant q80") (pos 96) (pos 192) (pos 128)) 8
          256 (omega arith))
        (when_run-AreOk 2 (run "webp" "high") (webp_task job) avif (omega arith)
          (clamp_int-IsBetween (by_tune (tune "webp" "high") (pos 60) (pos 96) (pos 90)) 10 100
            (omega arith))
          (last (run "avif" "medium"))))
  where
    last : (b : Bool) → AreOk 3 (when_run b (avif_task job))
    last true = (
      omega arith,
      (
        clamp_int-IsBetween
            (by_tune (job_tune_direction job (codes "avif") (codes "medium")) (pos 36) (pos 20)
              (pos 28))
            0 63 (omega arith),
        tt,
      ),
    )
    last false = (omega arith, tt)

-- Every job has at most six tasks, and each asks its encoder for a quality in range: a level of 1 to
-- 9 for PNG, a palette of 8 to 256 colours, 10 to 100 for WebP and 0 to 63 for AVIF. The task of a PNG
-- tuned to more has quality 0, and the levels that its encoder tries are of 1 to 9.
pub job_tasks-AreOk : (job : Job) → AreOk 0 (job_tasks job)
unfolding job_tasks build_expert_tasks
job_tasks-AreOk job =
    if_both (AreOk 0) (job.is_expert && ltb 0 (length job.requested_outputs))
      (expert_tasks_from-AreOk 0 (take max_outputs job.requested_outputs) (omega arith))
      (standard_tasks-AreOk job)

-- No format matches two names.
case_eq-apart : (f a b : Bytes) → case_eq a b ≡ false → case_eq f a ≡ true → case_eq f b ≡ false
unfolding case_eq
case_eq-apart f a b apart e = rw (eq_of_str_eq (map to_lower f) (map to_lower a) e) apart

runs : Bool → Bool → Bool
runs f l = if not f then false else if true && not l then false else true

target_table :
    (p w a l q h m : Bool) (t u v x : EncodeTask)
    → (p ≡ true → w ≡ false)
    → (p ≡ true → a ≡ false)
    → (w ≡ true → a ≡ false)
    → (if p then l || q else if w then h else if a then m else false)
      ≡ ltb 0 (
          length (
            when_run (runs p l) t
            ++ (when_run (runs p q) u ++ (when_run (runs w h) v ++ when_run (runs a m) x))))
unfolding runs
target_table p w a l q h m t u v x pw pa wa = ground (arith, pw, pa, wa)

is_known_target-some :
    (f l : Bytes)
    → is_empty f ≡ false
    → is_known_target (some f) (some l) ≡ (
        if case_eq f (codes "png")
        then case_eq l (codes "lossless") || case_eq l (codes "pngquant q80")
        else if case_eq f (codes "webp")
        then case_eq l (codes "high")
        else if case_eq f (codes "avif")
        then case_eq l (codes "medium")
        else false)
unfolding is_known_target
is_known_target-some [] l e = cc
is_known_target-some (b ∷ bs) l e = refl

should_run_task-some :
    (job : Job) (format label : Bytes)
    → is_empty job.tune_format ≡ false
    → is_empty job.tune_label ≡ false
    → should_run_task job format label
      ≡ runs (case_eq job.tune_format format) (case_eq job.tune_label label)
unfolding should_run_task runs
should_run_task-some job format label f l = rw f (rw l refl)

-- A job with no outputs of its own that names a tune format and a label has a task exactly when the
-- server accepts the two as a tune target.
pub is_known_target-standard_tasks :
    (job : Job)
    → is_empty job.tune_format ≡ false
    → is_empty job.tune_label ≡ false
    → is_known_target (some job.tune_format) (some job.tune_label)
      ≡ ltb 0 (length (standard_tasks job))
unfolding standard_tasks case_eq str_eq
is_known_target-standard_tasks job f l =
    let format = job.tune_format in
    let label = job.tune_label in
    rw (is_known_target-some format label f) (
      rw (should_run_task-some job (codes "png") (codes "lossless") f l) (
        rw (should_run_task-some job (codes "png") (codes "pngquant q80") f l) (
          rw (should_run_task-some job (codes "webp") (codes "high") f l) (
            rw (should_run_task-some job (codes "avif") (codes "medium") f l) (
              target_table (case_eq format (codes "png")) (case_eq format (codes "webp"))
                (case_eq format (codes "avif")) (case_eq label (codes "lossless"))
                (case_eq label (codes "pngquant q80")) (case_eq label (codes "high"))
                (case_eq label (codes "medium")) (png_task job) (quant_task job) (webp_task job)
                (avif_task job) (case_eq-apart format (codes "png") (codes "webp") refl)
                (case_eq-apart format (codes "png") (codes "avif") refl)
                (case_eq-apart format (codes "webp") (codes "avif") refl))))))
