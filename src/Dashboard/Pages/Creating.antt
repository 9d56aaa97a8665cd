-- ===== src/Dashboard/Pages/Creating.antt =====
-- client/dashboard/src/app/dashboard: the forms that create a bucket and a job, as machines, since
-- the calls that they start may end in any order. A call of the client is taken to be made: in the
-- page of media conversion `motionmesh` is the class, which has no `mediaConverter`, and each press
-- throws before it, which the events of a refused call cover.
pub mod Submits
use motionmesh.Base.{
  ℕ, zero, suc, ◌+◌, ◌-◌, Bool, true, false, ◌||◌, Option, none, some, String, List, [], ◌∷◌, ◌++◌,
  if◌then◌else◌, is_empty,
}
use motionmesh.Js.Value.{Value, is_truthy}
use motionmesh.Js.Exception.{Exception, Result, ok, thrown}
use motionmesh.Player.Country.{trim}
use motionmesh.Dashboard.Pages.{Outcome, put_first}

-- The page of buckets. `pending` are the bodies of the calls under way, `sent` those of all calls.
pub record BucketForm : Type 0 where
  pub is_create_open : Bool
  pub new_bucket_name : String
  pub new_bucket_region : String
  pub cache : Option (List Value)
  pub stale : ℕ
  pub pending : List (String × String)
  pub sent : List (String × String)
  pub toasts : List (String × String)

pub data BucketEvent : Type 0 where
  create_opened : Bool → BucketEvent
  name_typed : String → BucketEvent
  region_chosen : String → BucketEvent
  create_pressed : BucketEvent
  create_answered : ℕ → Result Outcome → BucketEvent

-- `handleCreateBucket` up to its call. The button is disabled by the same test.
unfoldable pub create_bucket : BucketForm → BucketForm
create_bucket s =
    if is_empty s.new_bucket_name || is_empty s.new_bucket_region then s else record s {
      pending = s.pending ++ (s.new_bucket_name, s.new_bucket_region) ∷ [];
      sent = s.sent ++ (s.new_bucket_name, s.new_bucket_region) ∷ [];
    }

-- The call with a number among those under way, and the other ones.
unfoldable pub take_call :
    ℕ → List (String × String) → Option ((String × String) × List (String × String))
take_call n [] = none
take_call zero (c ∷ cs) = some (c, cs)
take_call (suc n) (c ∷ cs) = elim (take_call n cs) [ none ↦ none | some (d, ds) ↦ some (d, c ∷ ds) ]

abbrev pub bucket_refused : BucketForm → BucketForm
bucket_refused s = record s { toasts = s.toasts ++ ("Failed to create bucket", "") ∷ [] }

-- `handleCreateBucket` from the answer on, with the name that it was called with.
unfoldable pub bucket_answered : String → Result Outcome → BucketForm → BucketForm
bucket_answered name (thrown e) s = bucket_refused s
bucket_answered name (ok o) s = if is_truthy o.error_ then bucket_refused s else record s {
  is_create_open = false;
  new_bucket_name = "";
  new_bucket_region = "";
  cache = put_first o.data_ s.cache;
  stale = s.stale + 1;
  toasts = s.toasts ++ ("Bucket created", name) ∷ [];
}

abbrev pub answer_call :
    Option ((String × String) × List (String × String)) → Result Outcome → BucketForm → BucketForm
answer_call none outcome s = s
answer_call (some (c, cs)) outcome s = bucket_answered c.0 outcome (record s { pending = cs })

unfoldable pub bucket_step : BucketEvent → BucketForm → BucketForm
bucket_step (create_opened b) s = record s { is_create_open = b }
bucket_step (name_typed text) s = record s { new_bucket_name = text }
bucket_step (region_chosen text) s = record s { new_bucket_region = text }
bucket_step create_pressed s = create_bucket s
bucket_step (create_answered i outcome) s = answer_call (take_call i s.pending) outcome s

unfoldable pub bucket_run : List BucketEvent → BucketForm → BucketForm
bucket_run [] s = s
bucket_run (e ∷ es) s = bucket_run es (bucket_step e s)

-- The page of media conversion. `calling` are the ids of the calls under way, `refetching` counts
-- the handlers that wait for the list to be loaded again.
pub record JobForm : Type 0 where
  pub video_id : String
  pub is_submitting : Bool
  pub calling : List String
  pub refetching : ℕ
  pub sent : List String
  pub toasts : List String

pub data JobEvent : Type 0 where
  id_typed : String → JobEvent
  job_pressed : JobEvent
  job_created : JobEvent
  job_refused : JobEvent
  jobs_loaded : JobEvent

-- `handleCreateJob` up to its call. The button is disabled while `isSubmitting`.
unfoldable pub submit_job : JobForm → JobForm
submit_job s =
    if is_empty (trim s.video_id)
    then record s { toasts = s.toasts ++ "Validation Error" ∷ [] }
    else record s {
      is_submitting = true;
      calling = s.calling ++ trim s.video_id ∷ [];
      sent = s.sent ++ trim s.video_id ∷ [];
    }

-- `await createJob` is done: then the list is asked for.
abbrev pub created_from : List String → JobForm → JobForm
created_from [] s = s
created_from (c ∷ cs) s = record s {
  video_id = "";
  calling = cs;
  refetching = s.refetching + 1;
  toasts = s.toasts ++ "Transcode Job Created" ∷ [];
}

-- It throws: `catch`, then `finally`.
abbrev pub refused_from : List String → JobForm → JobForm
refused_from [] s = s
refused_from (c ∷ cs) s = record s {
  calling = cs;
  is_submitting = false;
  toasts = s.toasts ++ "Failed to create job" ∷ [];
}

-- `await invalidateQueries` is done: `finally`.
abbrev pub loaded_from : ℕ → JobForm → JobForm
loaded_from zero s = s
loaded_from (suc n) s = record s { refetching = n; is_submitting = false }

unfoldable pub job_step : JobEvent → JobForm → JobForm
job_step (id_typed text) s = if s.is_submitting then s else record s { video_id = text }
job_step job_pressed s = let pressed = submit_job s in if s.is_submitting then s else pressed
job_step job_created s = created_from s.calling s
job_step job_refused s = refused_from s.calling s
job_step jobs_loaded s = loaded_from s.refetching s

unfoldable pub job_run : List JobEvent → JobForm → JobForm
job_run [] s = s
job_run (e ∷ es) s = job_run es (job_step e s)
