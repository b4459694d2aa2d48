-- ===== src/Jobs/Metrics/Totals.antt =====
-- The per-type counters of src/jobs/queue.ts and the sizes of the queue.
use mathlib.Core.Path.{fun_ext}
use disciplr_backend.Prelude.{
  ℕ, suc, ◌+◌, String, Bool, true, false, ◌&&◌, not, Option, List, [], ◌∷◌, ◌≡◌, refl, ap, ◌∙◌,
  arith, if◌then◌else◌, count, length,
}
use disciplr_backend.Jobs.Types.{JobType, job_types, same_type, notification_send}
use disciplr_backend.Jobs.Queue.{Queue}
use disciplr_backend.Jobs.Metrics.{
  sum_over, is_due, queued_of, delayed_of, active_of, get_metrics, get_queue_depth_report,
}

-- One more entry of type `u` that passes the test adds one to the sum.
sum_over-entry :
    (u : JobType) (b : Bool) (f : JobType → ℕ)
    → sum_over job_types (λ t. if same_type u t && b then suc (f t) else f t)
      ≡ (if b then suc (sum_over job_types f) else sum_over job_types f)
sum_over-entry notification_send true f = omega arith
sum_over-entry notification_send false f = omega arith
sum_over-entry _ true f = omega arith
sum_over-entry _ false f = omega arith

module _ {ℓ} {A : Type ℓ} (type_of : A → JobType) where
  -- Every entry that passes the test is counted under exactly one type.
  sum_over-count :
      (p : A → Bool) (xs : List A)
      → sum_over job_types (λ t. count (λ x. same_type (type_of x) t && p x) xs) ≡ count p xs
  sum_over-count p [] = refl
  sum_over-count p (x ∷ xs) =
      sum_over-entry (type_of x) (p x) (λ t. count (λ y. same_type (type_of y) t && p y) xs)
      ∙ ap (λ n. if p x then suc n else n) (sum_over-count p xs)

count-split : (p : ℕ → Bool) (xs : List ℕ) → count p xs + count (λ x. not (p x)) xs ≡ length xs
count-split p [] = refl
count-split p (x ∷ xs) = ground (arith, count-split p xs)

count-and_true {ℓ} :
    {A : Type ℓ} (p : A → Bool) (xs : List A) → count p xs ≡ count (λ x. p x && true) xs
count-and_true p [] = refl
count-and_true p (x ∷ xs) = ground (arith, count-and_true p xs)

count_all {ℓ} : {A : Type ℓ} (xs : List A) → count (λ x. true) xs ≡ length xs
count_all [] = refl
count_all (x ∷ xs) = ap suc (count_all xs)

module _ (now : ℕ) (q : Queue) where
  queued_sum : sum_over job_types (queued_of now q) ≡ count (λ r. is_due now (q.heap r)) q.pending
  unfolding queued_of
  queued_sum = sum_over-count (λ r. (q.heap r).type) (λ r. is_due now (q.heap r)) q.pending

  delayed_sum :
      sum_over job_types (delayed_of now q) ≡ count (λ r. not (is_due now (q.heap r))) q.pending
  unfolding delayed_of
  delayed_sum = sum_over-count (λ r. (q.heap r).type) (λ r. not (is_due now (q.heap r))) q.pending

  active_sum : sum_over job_types (active_of q) ≡ length q.active
  unfolding active_of
  active_sum =
      ap (sum_over job_types)
        (fun_ext λ t. count-and_true (λ (x : String × ℕ). same_type (q.heap x.1).type t) q.active)
      ∙ sum_over-count (λ (x : String × ℕ). (q.heap x.1).type) (λ x. true) q.active
      ∙ count_all q.active

  -- The queue depth and the delayed jobs of the metrics add up to the pending jobs, and the depth
  -- report, whatever its lease limit, counts the pending and the active jobs, each once.
  get_metrics_total :
      (limit : Option ℕ)
      → ((get_metrics now q).queue_depth + (get_metrics now q).delayed_jobs ≡ length q.pending)
        × ((get_queue_depth_report now limit q).total_depth
            ≡ length q.pending + (get_metrics now q).active_jobs)
  unfolding get_metrics get_queue_depth_report
  get_metrics_total limit =
      let split = count-split (λ r. is_due now (q.heap r)) q.pending in
      (
        omega (arith, queued_sum, delayed_sum, split),
        omega (arith, queued_sum, delayed_sum, active_sum, split),
      )
