-- ===== src/Dashboard/Pages/Polling.antt =====
-- What the polling of the page of videos does to the page.
use motionmesh.Base.{◌≡◌, refl, ap, Bool, false, String}
use motionmesh.Js.Number.{Number}
use motionmesh.Js.Value.{Value, Values, Members, arr, obj, elements, get}
use motionmesh.Js.Exception.{ok, thrown}
use motionmesh.Dashboard.Pages.{Outcome, is_failure, Screen, load_videos, has_processing}
use motionmesh.Dashboard.Pages.Lists.{poll_videos, list_screen, not_a_function, videos_screen}

-- Where the API answers with an array, the polling caches what the load gives, and the page shows
-- the list of it.
pub poll_videos-load_videos :
    (o : Outcome) (vs : Values) (s : Screen) (cached : Value) (format_bytes : Number → String)
    → is_failure o ≡ false
    → o.data_ ≡ arr vs
    → ((load_videos o s).0 ≡ ok (poll_videos o cached))
      × (videos_screen format_bytes false false (poll_videos o cached)
          ≡ ok (has_processing (elements vs), list_screen format_bytes false false (elements vs)))
unfolding load_videos poll_videos videos_screen
poll_videos-load_videos o vs s cached format_bytes f e = (rw (f, e) refl, rw e refl)

-- The API answers with an object that has the array under `videos`. The load then shows its list,
-- but after the first answer of the polling the page throws, whatever the state of its query.
pub poll_videos-throws :
    (o : Outcome) (ms : Members) (vs : Values) (s : Screen) (cached : Value)
    (format_bytes : Number → String) (is_loading is_error : Bool)
    → is_failure o ≡ false
    → o.data_ ≡ obj ms
    → get "videos" (obj ms) ≡ arr vs
    → ((load_videos o s).0 ≡ ok (arr vs))
      × (videos_screen format_bytes false false (arr vs)
          ≡ ok (has_processing (elements vs), list_screen format_bytes false false (elements vs)))
      × (videos_screen format_bytes is_loading is_error (poll_videos o cached)
          ≡ thrown not_a_function)
unfolding load_videos poll_videos videos_screen
poll_videos-throws o ms vs s cached format_bytes is_loading is_error f e v =
    (rw (f, e) (ap ok v), refl, rw e refl)
