-- ===== src/Jobs/Retries.antt =====
-- What becomes of a job in src/jobs/queue.ts whose handler failed.
use native.Mathlib.Nat.{pow-suc}
use disciplr_backend.Prelude.{
  ℕ, zero, suc, ◌+◌, ◌*◌, ◌^◌, ◌≤◌, ◌<◌, String, Bool, true, false, ◌||◌, some, List, [], ◌∷◌, ◌++◌,
  ◌≡◌, refl, sym, subst, ◌∙◌, ◌-◌, inl, inr, arith, min, length, any, ◌==◌, Option-cases, lt→ltb,
  get_elem?,
}
use disciplr_backend.Jobs.Queue.{
  Queue, Flight, insert_by, sort_by, run_job, take_due, due_time, drain_if_running,
  get_retry_delay_ms, map_delete,
}
use disciplr_backend.Jobs.Queue.Drain.{run_job_pending, drain_if_running_induction}
use disciplr_backend.Jobs.Operations.{rejected, settle_job, finish_flight, remove_at}

pow_pos : (n : ℕ) → 1 ≤ 2 ^ n
pow_pos zero = omega arith
pow_pos (suc n) = rw (pow-suc 2 n) (omega (arith, pow_pos n))

-- The delay doubles with each attempt, from one second up to one minute.
get_retry_delay_ms_bounds :
    (attempt : ℕ)
    → (1_000 ≤ get_retry_delay_ms (suc attempt))
      × (get_retry_delay_ms (suc attempt) ≤ 60_000)
      × (get_retry_delay_ms (suc (suc attempt)) ≡ min 60_000 (2 * get_retry_delay_ms (suc attempt)))
unfolding get_retry_delay_ms
get_retry_delay_ms_bounds attempt =
    let first : suc attempt - 1 ≡ attempt = omega arith in
    let second : suc (suc attempt) - 1 ≡ suc attempt = omega arith in
    rw (first, second, pow-suc 2 attempt)
      (omega (arith, pow_pos attempt), omega arith, omega (arith, pow_pos attempt))

get_retry_delay_ms_pos : (attempt : ℕ) → 0 < get_retry_delay_ms attempt
unfolding get_retry_delay_ms
get_retry_delay_ms_pos attempt = omega (arith, pow_pos (attempt - 1))

abbrev pub holds : ℕ → List ℕ → Bool
holds ref xs = any (λ x. x == ref) xs

holds-take_due :
    (key : ℕ → ℕ) (now ref : ℕ) (xs : List ℕ) {r : ℕ} {rest : List ℕ}
    → take_due key now xs ≡ some (r, rest)
    → now < key ref
    → holds ref xs ≡ true
    → holds ref rest ≡ true
unfolding take_due
holds-take_due key now ref [] e later h = cc
holds-take_due key now ref (x ∷ xs) e later h = elim (Option-cases (take_due key now xs)) [
  | inl e' ↦ ground arith
  | inr ((s, ys), e') ↦ ground (arith, holds-take_due key now ref xs {r = s} {rest = ys} e' later)
]

holds-insert_by :
    (key : ℕ → ℕ) (ref r : ℕ) (xs : List ℕ)
    → holds ref (insert_by key r xs) ≡ (r == ref || holds ref xs)
unfolding insert_by
holds-insert_by key ref r [] = refl
holds-insert_by key ref r (x ∷ xs) = ground (arith, holds-insert_by key ref r xs)

holds-sort_by : (key : ℕ → ℕ) (ref : ℕ) (xs : List ℕ) → holds ref (sort_by key xs) ≡ holds ref xs
unfolding sort_by
holds-sort_by key ref [] = refl
holds-sort_by key ref (x ∷ xs) =
    ground (arith, holds-insert_by key ref x (sort_by key xs), holds-sort_by key ref xs)

holds-snoc : (ref : ℕ) (xs : List ℕ) → holds ref (xs ++ ref ∷ []) ≡ true
holds-snoc ref [] = ground arith
holds-snoc ref (x ∷ xs) = ground (arith, holds-snoc ref xs)

-- A job that waits for a later time is still waiting for it after a drain.
record Waits (ref time : ℕ) (q : Queue) : Type 0 where
  when : (q.heap ref).run_at ≡ time
  queued : holds ref q.pending ≡ true

run_job-due_time :
    (now ref : ℕ) (q : Queue) (r : ℕ) → ((run_job now ref q).heap r).run_at ≡ (q.heap r).run_at
unfolding run_job
run_job-due_time now ref q r = ground arith

drain-Waits :
    (now ref time : ℕ) (q : Queue)
    → now < time
    → Waits ref time q
    → Waits ref time (drain_if_running now q)
unfolding due_time
drain-Waits now ref time q later w = drain_if_running_induction (Waits ref time) now round q w
  where
    round :
        (p : Queue) (r : ℕ) (rest : List ℕ)
        → Waits ref time p
        → length p.active < p.concurrency
        → take_due (due_time p) now p.pending ≡ some (r, rest)
        → Waits ref time (run_job now r (record p { pending = rest }))
    round p r rest w room e =
        let p' : Queue = record p { pending = rest } in
        record {
          when = run_job-due_time now r p' ref ∙ w.when;
          queued = rw (run_job_pending now r p') (
              holds-take_due (due_time p) now ref p.pending {r = r} {rest = rest} e
                (subst (λ t. now < t) (sym w.when) later) w.queued);
        }

settle_job-Waits :
    (now : ℕ) (f : Flight) (message : String) (q : Queue)
    → (q.heap f.ref).attempt < (q.heap f.ref).max_attempts
    → Waits f.ref
        (now + get_retry_delay_ms (q.heap f.ref).attempt)
        (settle_job now f (rejected message false) q)
unfolding settle_job
settle_job-Waits now f message q h = rw (lt→ltb _ _ h) (record {
  when = ground arith;
  queued = holds-sort_by _ f.ref (q.pending ++ f.ref ∷ []) ∙ holds-snoc f.ref q.pending;
})

-- A job whose handler fails, with an error that is not marked as final and with attempts to spare,
-- waits for its backoff: it is due exactly one delay later, and is pending still after the drain that
-- follows its failure.
pub finish_flight-retry_waits :
    (now i : ℕ) (message : String) (q : Queue) {f : Flight}
    → get_elem? q.flights i ≡ some f
    → (q.heap f.ref).attempt < (q.heap f.ref).max_attempts
    → (((finish_flight now i (rejected message false) q).heap f.ref).run_at
        ≡ now + get_retry_delay_ms (q.heap f.ref).attempt)
      × (holds f.ref (finish_flight now i (rejected message false) q).pending ≡ true)
unfolding finish_flight
finish_flight-retry_waits now i message q {f} e spare =
    let w =
      drain-Waits now f.ref (now + get_retry_delay_ms (q.heap f.ref).attempt) freed
        (omega (arith, get_retry_delay_ms_pos (q.heap f.ref).attempt))
        (record { when = settled.when; queued = settled.queued }) in
    rw (e, finish_flight) (w.when, w.queued)
  where
    q' : Queue
    q' = record q { flights = remove_at i q.flights }

    settled :
        Waits f.ref
          (now + get_retry_delay_ms (q.heap f.ref).attempt)
          (settle_job now f (rejected message false) q')
    settled = settle_job-Waits now f message q' spare

    freed : Queue
    freed = record (settle_job now f (rejected message false) q') {
      active = map_delete (q.heap f.ref).id (settle_job now f (rejected message false) q').active;
    }
