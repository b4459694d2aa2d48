-- ===== src/Exports/Outcomes.antt =====
-- What a run of processJob in src/services/exportQueue.ts leaves behind.
use disciplr_backend.Prelude.{
  ℕ, suc, String, Bool, true, false, not, ◌&&◌, ◌||◌, Option, none, some, List, [], ◌∷◌, ◌++◌, ◌≡◌,
  refl, ap, subst, sym, ◌∙◌, arith, ltb, is_some, or_default, any, same_refl, lookup-put,
  Option-cases, Bool-cases, inl, inr, ◌⊎◌,
}
use mathlib.Core.Option.{some_inj}
use disciplr_backend.Exports.{
  ExportJob, ExportFormat, csv, json, ndjson, is_done, DlqEntry, FailureReason,
}
use disciplr_backend.Exports.Repository.{get, update, is_recoverable}
use disciplr_backend.Exports.DeadLetters.{Dlq, dlq_insert, is_entry_of, invoke_metrics_hook}
use disciplr_backend.Exports.Data.{Row, ExportData}
use disciplr_backend.Exports.Data.Serializing.{
  Outcome, returned, threw, ◌>>=◌, Serialized, serialize_export_data, filter_export_data, csv_text,
}
use disciplr_backend.Exports.Jobs.{
  State, World, Work, produced, broke, process_job, run_job, finish, work, upload, fetch_data,
  done_job, failed_job, running_job, bury, content_type, object_key, dead_letter, export_pii_values,
}

-- The job that a run ends with, and the message that it throws.
final_job : World → ℕ → ExportJob → Work → ExportJob
final_job w n job (produced buffer filename s3_key) = done_job w n buffer filename s3_key job
final_job w n job (broke reason thrown) =
    failed_job w n (w.sanitize_string thrown (export_pii_values job)) job

has_thrown : Work → Bool
has_thrown (produced buffer filename s3_key) = false
has_thrown (broke reason thrown) = true

any-snoc :
    (p : DlqEntry → Bool) (es : List DlqEntry) (e : DlqEntry)
    → p e ≡ true
    → any p (es ++ e ∷ []) ≡ true
any-snoc p [] e h = ground (arith, h)
any-snoc p (x ∷ es) e h = ground (arith, any-snoc p es e h)

bury-any :
    (w : World) (n : ℕ) (reason : FailureReason) (message : String) (job : ExportJob) (q : Dlq)
    → ltb n job.max_attempts ≡ false
    → any (is_entry_of job.id) (bury w n reason message job q).entries ≡ true
unfolding bury dlq_insert is_entry_of dead_letter invoke_metrics_hook
bury-any w n reason message job q e =
    let buried =
      any-snoc (is_entry_of job.id) _ (dead_letter w n reason message job) (same_refl job.id) in
    elim (Bool-cases q.has_hook) [ inl h ↦ rw (e, h) buried | inr h ↦ rw (e, h) buried ]

module _ (w : World) (store : Option (List Row)) (attempt : Option ℕ) (job : ExportJob) (s : State)
    (found : get job.id s.repository ≡ some job) (open_job : is_done job.status ≡ false) where
  result_of : State × Option String
  result_of = process_job w job.id store attempt s

  attempt_of : ℕ
  attempt_of = or_default attempt (suc job.attempts)

  process_job-finish :
      process_job w job.id store attempt s
      ≡ finish w attempt_of job
          (work w store job)
          (record s { repository = update (running_job attempt_of job) s.repository })
  unfolding process_job run_job attempt_of
  process_job-finish = rw (found, process_job, open_job) refl

  finish-get :
      (x : Work) (s' : State)
      → (get job.id (finish w attempt_of job x s').0.repository
          ≡ some (final_job w attempt_of job x))
        × (is_some (finish w attempt_of job x s').1 ≡ has_thrown x)
  unfolding finish get update final_job has_thrown done_job failed_job
  finish-get (produced buffer filename s3_key) s' =
      (rw (lookup-put job.id job.id, same_refl job.id) refl, refl)
  finish-get (broke reason thrown) s' = (rw (lookup-put job.id job.id, same_refl job.id) refl, refl)

  final_job-flags :
      (x : Work)
      → (is_done (final_job w attempt_of job x).status ≡ not (has_thrown x))
        × (is_recoverable (final_job w attempt_of job x)
            ≡ (has_thrown x && ltb attempt_of job.max_attempts))
  unfolding final_job has_thrown is_recoverable done_job failed_job
  final_job-flags (produced buffer filename s3_key) = (refl, refl)
  final_job-flags (broke reason thrown) = elim (Bool-cases (ltb attempt_of job.max_attempts)) [
    | inl e ↦ rw (e) (refl, refl)
    | inr e ↦ rw (e) (refl, refl)
  ]

  finish-dlq :
      (x : Work) (s' : State)
      → has_thrown x ≡ true
      → ltb attempt_of job.max_attempts ≡ false
      → any (is_entry_of job.id) (finish w attempt_of job x s').0.dlq.entries ≡ true
  unfolding finish has_thrown
  finish-dlq (produced buffer filename s3_key) s' h e = cc h
  finish-dlq (broke reason thrown) s' h e = bury-any w attempt_of reason _ job s'.dlq e

  -- What is said of a run that ends in a state, with or without an exception.
  SettledAs : State × Option String → Type 0
  SettledAs r =
      (last : ExportJob)
      → get job.id r.0.repository ≡ some last
      → (is_done last.status ≡ not (is_some r.1))
        × (is_recoverable last ≡ (is_some r.1 && ltb attempt_of job.max_attempts))
        × ((is_some r.1 && not (ltb attempt_of job.max_attempts)) ≡ true
            → any (is_entry_of job.id) r.0.dlq.entries ≡ true)

  finish-settled : (x : Work) (s' : State) → SettledAs (finish w attempt_of job x s')
  unfolding SettledAs
  finish-settled x s' last h =
      let (stored, thrown) = finish-get x s' in
      let e : final_job w attempt_of job x ≡ last = some_inj.0 (sym stored ∙ h) in
      let (is_done_flag, recoverable_flag) = final_job-flags x in
      (
        sym (ap (λ j. is_done j.status) e) ∙ is_done_flag ∙ ap not (sym thrown),
        sym (ap is_recoverable e)
            ∙ recoverable_flag
            ∙ ap (λ b. b && ltb attempt_of job.max_attempts) (sym thrown),
        λ g. finish-dlq x s' (ground (arith, g, thrown)) (ground (arith, g)),
      )

  -- A run of a stored job that is not done leaves it done exactly when no exception is thrown; after an
  -- exception the job is one that a restart recovers exactly when its attempts are fewer than allowed,
  -- and otherwise the dead-letter queue has an entry of it.
  pub process_job_settled :
      (last : ExportJob)
      → get job.id (process_job w job.id store attempt s).0.repository ≡ some last
      → (is_done last.status ≡ not (is_some (process_job w job.id store attempt s).1))
        × (is_recoverable last ≡ (
            is_some (process_job w job.id store attempt s).1
            && ltb (or_default attempt (suc job.attempts)) job.max_attempts))
        × ((is_some (process_job w job.id store attempt s).1
                && not (ltb (or_default attempt (suc job.attempts)) job.max_attempts))
              ≡ true
            → any (is_entry_of job.id) (process_job w job.id store attempt s).0.dlq.entries ≡ true)
  unfolding SettledAs attempt_of
  process_job_settled last h =
      subst SettledAs (sym process_job-finish) (finish-settled (work w store job) _) last h

is_ndjson : ExportFormat → Bool
is_ndjson ndjson = true
is_ndjson csv = false
is_ndjson json = false

-- A file to download is there: in the repository or in the bucket.
unfoldable pub has_file : ExportJob → Bool
has_file job = is_some job.result || is_some job.s3_key

-- The formats whose text is kept, or a bucket.
unfoldable pub keeps_file : World → ExportJob → Bool
keeps_file w job = elim job.format [ ndjson ↦ is_some w.bucket | csv ↦ true | json ↦ true ]

kept_flag :
    (f : ExportFormat) (buffer s3_key : Option String) (there : Bool)
    → is_some buffer ≡ not (is_ndjson f)
    → is_some s3_key ≡ there
    → (is_some {A = String} (elim f [ ndjson ↦ none | csv ↦ buffer | json ↦ buffer ])
        || is_some s3_key)
      ≡ elim f [ ndjson ↦ there | csv ↦ true | json ↦ true ]
unfolding is_ndjson
kept_flag csv buffer s3_key there h k = ground (arith, h)
kept_flag json buffer s3_key there h k = ground (arith, h)
kept_flag ndjson buffer s3_key there h k = k

Outcome-cases :
    {A : Type 0} (x : Outcome A) → ((a : A) × (x ≡ returned a)) ⊎ ((m : String) × (x ≡ threw m))
Outcome-cases (returned a) = inl (a, refl)
Outcome-cases (threw m) = inr (m, refl)

abbrev Returns : {A : Type 0} → (A → Type 0) → Outcome A → Type 0
Returns P (returned a) = P a
Returns P (threw m) = Unit

bind-Returns :
    {A B : Type 0} (P : B → Type 0) (x : Outcome A) (k : A → Outcome B)
    → ((a : A) → Returns P (k a))
    → Returns P (x >>= k)
bind-Returns P (returned a) k h = h a
bind-Returns P (threw m) k h = tt

module _ (w : World) (job : ExportJob) where
  -- What the try block produces is kept.
  Kept : Work → Type 0
  Kept (produced buffer filename s3_key) =
      (n : ℕ) → has_file (done_job w n buffer filename s3_key job) ≡ keeps_file w job
  Kept (broke reason thrown) = Unit

  upload-Kept :
      (file : Serialized)
      → (is_some file.buffer ≡ not (is_ndjson job.format))
      → Kept (upload w job file)
  unfolding Kept upload has_file keeps_file done_job
  upload-Kept file h = elim (Option-cases w.bucket) [
    | inl e ↦ rw (e, upload) (λ n. kept_flag job.format file.buffer none false h refl)
    | inr (put_object, e) ↦
        elim (Outcome-cases (
          put_object (object_key job file.filename) (content_type job.format) file.buffer
            file.readable)) [
              | inl (x, f) ↦
                  rw (e, upload, f)
                    (λ n.
                      kept_flag job.format file.buffer (some (object_key job file.filename)) true h
                        refl)
              | inr (message, f) ↦ rw (e, upload, f) tt
            ]
  ]

  serialize_export_data-buffer :
      (rows : ExportData) (f : ExportFormat)
      → Returns
          (λ file. is_some file.buffer ≡ not (is_ndjson f))
          (serialize_export_data w.writers rows f job.columns w.stamp)
  unfolding serialize_export_data is_ndjson
  serialize_export_data-buffer rows json =
      bind-Returns _ (w.writers.json_stringify (filter_export_data rows job.columns)) _
        (λ body. refl)
  serialize_export_data-buffer rows csv =
      bind-Returns _ (csv_text w.writers (filter_export_data rows job.columns) job.columns) _
        (λ body. refl)
  serialize_export_data-buffer rows ndjson = refl

  work-Kept : (store : Option (List Row)) → Kept (work w store job)
  unfolding work Kept
  work-Kept store = elim (Outcome-cases (fetch_data w store job)) [
    | inr (m, e) ↦ rw (e, work) tt
    | inl (rows, e) ↦
        elim (Outcome-cases (serialize_export_data w.writers rows job.format job.columns w.stamp)) [
          | inr (m, f) ↦ rw (e, work, f) tt
          | inl (file, f) ↦
              rw (e, work, f)
                (upload-Kept file
                  (subst (Returns _) f (serialize_export_data-buffer rows job.format)))
        ]
  ]

module _ (w : World) (store : Option (List Row)) (attempt : Option ℕ) (job : ExportJob) (s : State)
    (found : get job.id s.repository ≡ some job) (open_job : is_done job.status ≡ false) where
  Filed : ExportJob → State × Option String → Type 0
  Filed last r =
      r.1 ≡ none → get job.id r.0.repository ≡ some last → has_file last ≡ keeps_file w job

  finish-Filed :
      (last : ExportJob) (x : Work) (s' : State)
      → Kept w job x
      → Filed last (finish w (or_default attempt (suc job.attempts)) job x s')
  unfolding Filed finish Kept final_job attempt_of
  finish-Filed last (produced buffer filename s3_key) s' kept quiet h =
      let n = or_default attempt (suc job.attempts) in
      let stored =
        (finish-get w store attempt job s found open_job (produced buffer filename s3_key) s').0 in
      sym (ap has_file (some_inj.0 (sym stored ∙ h))) ∙ kept n
  finish-Filed last (broke reason thrown) s' kept quiet h = cc quiet

  -- A run of a stored job that is not done and throws no exception leaves a file to download, in the
  -- repository or in the bucket, exactly when a bucket is configured or the format is not ndjson.
  pub process_job-has_file :
      (last : ExportJob)
      → (process_job w job.id store attempt s).1 ≡ none
      → get job.id (process_job w job.id store attempt s).0.repository ≡ some last
      → has_file last ≡ keeps_file w job
  unfolding Filed attempt_of
  process_job-has_file last quiet h =
      subst (Filed last) (sym (process_job-finish w store attempt job s found open_job))
        (finish-Filed last (work w store job) _ (work-Kept w job store)) quiet h
