-- ===== src/Dashboard/Pages/Creating/Submits.antt =====
-- How many calls the forms that create a bucket and a job may have under way.
use mathlib.Core.List.{append-nil, append_assoc}
use motionmesh.Base.{
  ℕ, zero, suc, ◌+◌, ◌≡◌, refl, ap, sym, ◌∙◌, Bool, true, false, String, List, [], ◌∷◌, ◌++◌,
  is_empty, Bool-cases, inl, inr, length, length-append, if◌then◌else◌, arith,
}
use motionmesh.Base.Lists.{All, All-append}
use motionmesh.Player.Country.{trim}
use motionmesh.Dashboard.Pages.Creating.{
  BucketForm, create_pressed, create_bucket, bucket_step, bucket_run, JobForm, JobEvent, id_typed,
  job_pressed, job_created, job_refused, jobs_loaded, submit_job, created_from, refused_from,
  loaded_from, job_step, job_run,
}

abbrev pub repeat {ℓ} : {A : Type ℓ} → ℕ → A → List A
repeat zero a = []
repeat (suc n) a = a ∷ repeat n a

create_bucket-filled :
    (s : BucketForm)
    → is_empty s.new_bucket_name ≡ false
    → is_empty s.new_bucket_region ≡ false
    → create_bucket s ≡ record s {
      pending = s.pending ++ (s.new_bucket_name, s.new_bucket_region) ∷ [];
      sent = s.sent ++ (s.new_bucket_name, s.new_bucket_region) ∷ [];
    }
unfolding create_bucket
create_bucket-filled s name region = rw (name, region) refl

-- Each press of the button of a filled form sends the same bucket once more, as long as no answer
-- has come: nothing keeps a second press from a second bucket.
pub bucket_run-repeat :
    (n : ℕ) (s : BucketForm)
    → is_empty s.new_bucket_name ≡ false
    → is_empty s.new_bucket_region ≡ false
    → let s' = bucket_run (repeat n create_pressed) s in
      (s'.sent ≡ s.sent ++ repeat n (s.new_bucket_name, s.new_bucket_region))
      × (s'.pending ≡ s.pending ++ repeat n (s.new_bucket_name, s.new_bucket_region))
unfolding bucket_run bucket_step
bucket_run-repeat zero s name region = (sym (append-nil s.sent), sym (append-nil s.pending))
bucket_run-repeat (suc n) s name region =
    let body : String × String = (s.new_bucket_name, s.new_bucket_region) in
    let s' : BucketForm = record s {
      pending = s.pending ++ body ∷ [];
      sent = s.sent ++ body ∷ [];
    } in
    let (sent, pending) = bucket_run-repeat n s' name region in
    let first = create_bucket-filled s name region in
    let rest = ap (bucket_run (repeat n create_pressed)) first in
    (
      ap (λ t. t.sent) rest ∙ sent ∙ append_assoc s.sent (body ∷ []) _,
      ap (λ t. t.pending) rest ∙ pending ∙ append_assoc s.pending (body ∷ []) _,
    )

-- What holds of the form of a job: there is a call or a load under way exactly while the button
-- is disabled, and then only one; and each id that was sent has a letter.
abbrev pub IsSerial : JobForm → Type 0
IsSerial s =
    (length s.calling + s.refetching ≡ (if s.is_submitting then 1 else 0))
    × All (λ id. is_empty id ≡ false) s.sent

choose-IsSerial :
    (b : Bool) (s t : JobForm)
    → (b ≡ true → IsSerial s)
    → (b ≡ false → IsSerial t)
    → IsSerial (if b then s else t)
choose-IsSerial true s t f g = f refl
choose-IsSerial false s t f g = g refl

submit_job-IsSerial : (s : JobForm) → IsSerial s → s.is_submitting ≡ false → IsSerial (submit_job s)
unfolding submit_job
submit_job-IsSerial s (one, full) free = elim (Bool-cases (is_empty (trim s.video_id))) [
  | inl blank ↦ rw blank (one, full)
  | inr given ↦ rw given (
    calls s.is_submitting free one,
    All-append (λ id. is_empty id ≡ false) s.sent (trim s.video_id ∷ []) full (given, tt),
  )
]
  where
    calls :
        (b : Bool)
        → b ≡ false
        → length s.calling + s.refetching ≡ (if b then 1 else 0)
        → length (s.calling ++ trim s.video_id ∷ []) + s.refetching ≡ 1
    calls true free one = absurd cc
    calls false free one = omega (arith, length-append s.calling (trim s.video_id ∷ []))

-- A call or a load that is under way has the button disabled, and is the only one.
only : (b : Bool) (n : ℕ) → suc n ≡ (if b then 1 else 0) → (b ≡ true) × (n ≡ 0)
only true n e = (refl, omega arith)
only false n e = absurd (omega arith)

created-IsSerial :
    (cs : List String) (s : JobForm) → IsSerial s → s.calling ≡ cs → IsSerial (created_from cs s)
created-IsSerial [] s v e = v
created-IsSerial (c ∷ cs) s (one, full) e =
    let n : length s.calling ≡ suc (length cs) = ap length e in (omega (arith, n, one), full)

refused-IsSerial :
    (cs : List String) (s : JobForm) → IsSerial s → s.calling ≡ cs → IsSerial (refused_from cs s)
refused-IsSerial [] s v e = v
refused-IsSerial (c ∷ cs) s (one, full) e =
    let n : length s.calling ≡ suc (length cs) = ap length e in
    let m : suc (length cs + s.refetching) ≡ length s.calling + s.refetching = omega (arith, n) in
    ((only s.is_submitting _ (m ∙ one)).1, full)

loaded-IsSerial : (n : ℕ) (s : JobForm) → IsSerial s → s.refetching ≡ n → IsSerial (loaded_from n s)
loaded-IsSerial zero s v e = v
loaded-IsSerial (suc n) s (one, full) e =
    let m : suc (length s.calling + n) ≡ length s.calling + s.refetching = omega (arith, e) in
    ((only s.is_submitting _ (m ∙ one)).1, full)

step-IsSerial : (e : JobEvent) (s : JobForm) → IsSerial s → IsSerial (job_step e s)
unfolding job_step
step-IsSerial (id_typed text) s v = choose-IsSerial s.is_submitting _ _ (λ k. v) (λ k. v)
step-IsSerial job_pressed s v =
    choose-IsSerial s.is_submitting _ _ (λ k. v) (submit_job-IsSerial s v)
step-IsSerial job_created s v = created-IsSerial s.calling s v refl
step-IsSerial job_refused s v = refused-IsSerial s.calling s v refl
step-IsSerial jobs_loaded s v = loaded-IsSerial s.refetching s v refl

-- Whatever is pressed and however calls end, the form of a job has one call or load under way while
-- it is disabled and none otherwise, and it never sends an empty id.
pub job_run-IsSerial : (es : List JobEvent) (s : JobForm) → IsSerial s → IsSerial (job_run es s)
unfolding job_run
job_run-IsSerial [] s v = v
job_run-IsSerial (e ∷ es) s v = job_run-IsSerial es (job_step e s) (step-IsSerial e s v)
