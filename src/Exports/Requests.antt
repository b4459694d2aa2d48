-- ===== src/Exports/Requests.antt =====
-- Repeated requests for an export, and what a finished job leaves to download, in
-- src/services/exportQueue.ts.
use disciplr_backend.Prelude.{
  String, false, not, Option, none, some, ◌≡◌, refl, ap, subst, sym, ◌∙◌, if◌then◌else◌, is_empty,
  same, same_refl, lookup, put, Dict, lookup-put, Option-cases, Bool-cases, inl, inr,
}
use disciplr_backend.Exports.{ExportJob}
use disciplr_backend.Exports.Repository.{
  Repository, created_job, create, register_key, get, find_by_idempotency_key, idempotency_entry,
}
use disciplr_backend.Exports.Jobs.{
  State, EnqueueInput, Hash, Enqueued, accepted, idempotency_conflict, enqueue_export_job,
  create_and_submit, new_job, hash_export_request, find_existing,
}

-- What a request is answered once a job stands for its key.
abbrev answer_for_job : Hash → EnqueueInput → ExportJob → Enqueued
answer_for_job hash input job =
    if not (same job.request_hash (hash_export_request hash input))
    then idempotency_conflict
    else accepted job

accepted_job : Enqueued → ExportJob → ExportJob
accepted_job (accepted job) other = job
accepted_job idempotency_conflict other = other

accepted_inj : {a b : ExportJob} → accepted a ≡ accepted b → a ≡ b
unfolding accepted_job
accepted_inj {a} e = ap (λ x. accepted_job x a) e

find_by_idempotency_key_found :
    (user_id key id : String) (r : Repository) (job : ExportJob)
    → lookup (idempotency_entry user_id key) r.idempotency_keys ≡ some id
    → is_empty id ≡ false
    → lookup id r.jobs ≡ some job
    → find_by_idempotency_key user_id key r ≡ some job
unfolding find_by_idempotency_key get
find_by_idempotency_key_found user_id key id r job keyed given found =
    rw (keyed, find_by_idempotency_key, given) found

lookup-put_same : {V : Type 0} (k : String) (v : V) (m : Dict V) → lookup k (put k v m) ≡ some v
lookup-put_same k v m = lookup-put k k v m ∙ rw (same_refl k) refl

register_key_given :
    (key : Option String) (user_id id k : String) (keys : Dict String)
    → key ≡ some k
    → is_empty k ≡ false
    → register_key key user_id id keys ≡ put (idempotency_entry user_id k) id keys
register_key_given key user_id id k keys e given = rw (e, given) refl

enqueue_fresh :
    (hash : Hash) (input : EnqueueInput) (id now : String) (s : State)
    → find_existing input s.repository ≡ none
    → enqueue_export_job hash input id now s ≡ create_and_submit hash input id now s
unfolding enqueue_export_job
enqueue_fresh hash input id now s e = rw (e, enqueue_export_job) refl

enqueue_found :
    (hash : Hash) (input : EnqueueInput) (id now : String) (s : State) (old : ExportJob)
    → find_existing input s.repository ≡ some old
    → enqueue_export_job hash input id now s ≡ (s, answer_for_job hash input old)
unfolding enqueue_export_job
enqueue_found hash input id now s old e = rw (e, enqueue_export_job) refl

answer_for_job_accepted :
    (hash : Hash) (input : EnqueueInput) (old job : ExportJob)
    → answer_for_job hash input old ≡ accepted job
    → old ≡ job
answer_for_job_accepted hash input old job h =
    elim (Bool-cases (same old.request_hash (hash_export_request hash input))) [
      | inl e ↦ accepted_inj (rw (e) at h)
      | inr e ↦ cc (rw (e) at h)
    ]

module _ (hash : Hash) (input again : EnqueueInput) (key : String)
    (has_key : input.idempotency_key ≡ some key) (has_key_again : again.idempotency_key ≡ some key)
    (same_user : again.user_id ≡ input.user_id) (key_given : is_empty key ≡ false) where
  find_existing-by_key :
      (r : Repository) → find_existing again r ≡ find_by_idempotency_key input.user_id key r
  unfolding find_existing
  find_existing-by_key r = rw (has_key_again, find_existing, same_user, key_given) refl

  find_existing-create :
      (id now : String) (s : State)
      → is_empty id ≡ false
      → find_existing again (create_and_submit hash input id now s).0.repository
        ≡ some (created_job (new_job hash input) id now)
  unfolding create_and_submit create new_job
  find_existing-create id now s id_given =
      let job = created_job (new_job hash input) id now in
      find_existing-by_key (create_and_submit hash input id now s).0.repository
      ∙ find_by_idempotency_key_found input.user_id key id
          (create_and_submit hash input id now s).0.repository job
          (ap (lookup (idempotency_entry input.user_id key)) (
              register_key_given input.idempotency_key input.user_id id key
                s.repository.idempotency_keys has_key key_given)
            ∙ lookup-put_same (idempotency_entry input.user_id key) id
                s.repository.idempotency_keys)
          id_given (lookup-put_same id job s.repository.jobs)

  find_existing_again : (r : Repository) → find_existing again r ≡ find_existing input r
  unfolding find_existing
  find_existing_again r = rw (has_key, has_key_again, same_user) refl

  -- The second request is answered from the job of the first.
  Answered : (id' now' : String) → ExportJob → State × Enqueued → Type 0
  Answered id' now' job r =
      r.1 ≡ accepted job
      → enqueue_export_job hash again id' now' r.0 ≡ (r.0, answer_for_job hash again job)

  -- Once a request with an idempotency key was accepted with a job, another request of the same user
  -- with the same key changes nothing: it is given that job if the hash of its target, scope, format
  -- and columns is that of the job, and is refused as a conflict otherwise.
  pub enqueue_export_job_again :
      (id now id' now' : String) (s : State) (job : ExportJob)
      → is_empty id ≡ false
      → (enqueue_export_job hash input id now s).1 ≡ accepted job
      → enqueue_export_job hash again id' now' (enqueue_export_job hash input id now s).0 ≡ (
        (enqueue_export_job hash input id now s).0,
        if not (same job.request_hash (hash_export_request hash again))
            then idempotency_conflict
            else accepted job,
      )
  unfolding Answered create_and_submit created_job create
  enqueue_export_job_again id now id' now' s job id_given =
      elim (Option-cases (find_existing input s.repository)) [
        | inl e ↦ subst (Answered id' now' job) (sym (enqueue_fresh hash input id now s e)) (λ h.
            enqueue_found hash again id' now' _ _ (find_existing-create id now s id_given)
            ∙ ap (λ j. ((create_and_submit hash input id now s).0, answer_for_job hash again j))
                (accepted_inj h))
        | inr (old, e) ↦
            subst (Answered id' now' job) (sym (enqueue_found hash input id now s old e)) (λ h.
              enqueue_found hash again id' now' s old (find_existing_again s.repository ∙ e)
              ∙ ap (λ j. (s, answer_for_job hash again j))
                  (answer_for_job_accepted hash input old job h))
      ]
