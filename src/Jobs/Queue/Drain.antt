-- ===== src/Jobs/Queue/Drain.antt =====
-- The loop of `drain` of src/jobs/queue.ts: its fuel, and induction over its rounds.
use disciplr_backend.Prelude.{
  ℕ, zero, suc, ◌≤◌, ◌<◌, String, Bool, true, false, ◌&&◌, none, some, List, [], ◌∷◌, ◌≡◌, refl,
  ◌⊎◌, inl, inr, arith, ltb, length, Option-cases, Bool-cases, if_both,
}
use disciplr_backend.Jobs.Queue.{
  Queue, run_job, take_due, due_time, drain_loop, drain, drain_if_running,
}

pub length-take_due :
    (key : ℕ → ℕ) (now : ℕ) (xs : List ℕ) {r : ℕ} {rest : List ℕ}
    → take_due key now xs ≡ some (r, rest)
    → length xs ≡ suc (length rest)
unfolding take_due
length-take_due key now [] h = cc
length-take_due key now (x ∷ xs) {r} {rest} h = elim (Option-cases (take_due key now xs)) [
  | inl e ↦ ground arith
  | inr ((s, ys), e) ↦ ground (arith, length-take_due key now xs {r = s} {rest = ys} e)
]

-- What `run_job` leaves alone.
pub run_job_pending : (now ref : ℕ) (q : Queue) → (run_job now ref q).pending ≡ q.pending
unfolding run_job
run_job_pending now ref q = ground arith

pub run_job_running : (now ref : ℕ) (q : Queue) → (run_job now ref q).running ≡ q.running
unfolding run_job
run_job_running now ref q = ground arith

pub run_job_concurrency :
    (now ref : ℕ) (q : Queue) → (run_job now ref q).concurrency ≡ q.concurrency
unfolding run_job
run_job_concurrency now ref q = ground arith

-- Nothing more can start: the queue is stopped, it is full, or no pending job is due.
abbrev pub IsDrained : ℕ → Queue → Type 0
IsDrained now q =
    (q.running ≡ false)
    ⊎ (q.concurrency ≤ length q.active)
    ⊎ (take_due (due_time q) now q.pending ≡ none)

drain_loop-IsDrained :
    (fuel now : ℕ) (q : Queue) → length q.pending < fuel → IsDrained now (drain_loop fuel now q)
unfolding drain_loop
drain_loop-IsDrained zero now q h = elim h [ ]
drain_loop-IsDrained (suc fuel) now q h =
    elim (Bool-cases (q.running && ltb (length q.active) q.concurrency)) [
      | inr stop ↦ rw (stop, drain_loop) (stopped q.running q.active stop)
      | inl go ↦ elim (Option-cases (take_due (due_time q) now q.pending)) [
        | inl e ↦ rw (go, drain_loop) (rw (e, drain_loop) (inr (inr e)))
        | inr ((ref, rest), e) ↦
            rw (go, drain_loop)
              (rw (e, drain_loop)
                (drain_loop-IsDrained fuel now (run_job now ref (record q { pending = rest })) (
                  rw (run_job_pending now ref (record q { pending = rest })) (
                    omega (
                      arith,
                      length-take_due (due_time q) now q.pending {r = ref} {rest = rest} e,
                    )))))
      ]
    ]
  where
    stopped :
        (b : Bool) (active : List (String × ℕ))
        → (b && ltb (length active) q.concurrency) ≡ false
        → (b ≡ false)
          ⊎ (q.concurrency ≤ length active)
          ⊎ (take_due (due_time q) now q.pending ≡ none)
    stopped false active e = inl refl
    stopped true active e = inr (inl (ground arith))

-- The loop ends for a reason of its own, and never for want of rounds.
pub drain-IsDrained : (now : ℕ) (q : Queue) → IsDrained now (drain now q)
unfolding drain
drain-IsDrained now q = drain_loop-IsDrained (suc (length q.pending)) now q (omega arith)

-- What every round keeps, the whole loop keeps.
module _ {ℓ} (P : Queue → Type ℓ) (now : ℕ)
    (round : (q : Queue) (ref : ℕ) (rest : List ℕ)
      → P q
      → length q.active < q.concurrency
      → take_due (due_time q) now q.pending ≡ some (ref, rest)
      → P (run_job now ref (record q { pending = rest }))) where
  drain_loop_induction : (fuel : ℕ) (q : Queue) → P q → P (drain_loop fuel now q)
  unfolding drain_loop
  drain_loop_induction zero q p = p
  drain_loop_induction (suc fuel) q p =
      elim (Bool-cases (q.running && ltb (length q.active) q.concurrency)) [
        | inr stop ↦ rw (stop, drain_loop) p
        | inl go ↦ elim (Option-cases (take_due (due_time q) now q.pending)) [
          | inl e ↦ rw (go, drain_loop) (rw (e, drain_loop) p)
          | inr ((ref, rest), e) ↦
              rw (go, drain_loop)
                (rw (e, drain_loop)
                  (drain_loop_induction fuel (run_job now ref (record q { pending = rest }))
                    (round q ref rest p (ground arith) e)))
        ]
      ]

  pub drain_induction : (q : Queue) → P q → P (drain now q)
  unfolding drain
  drain_induction q p = drain_loop_induction (suc (length q.pending)) q p

  pub drain_if_running_induction : (q : Queue) → P q → P (drain_if_running now q)
  unfolding drain_if_running
  drain_if_running_induction q p = if_both P q.running (drain_induction q p) p
