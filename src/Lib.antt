-- ===== src/Lib.antt =====
-- Motionmesh: the client side of a video platform, in TypeScript. The Go services, the deployment
-- and the layout of the pages are not modelled; what the client code asks of the services is, and
-- the services themselves are a parameter.
--
-- The parts and how they interact:
-- * sdk/js/packages/sdk is the SDK. `handleProcessRequest` (Sdk/Process) is mounted by an
--   application and passes its front end's requests on to the API, through one function for each
--   call (Sdk/Services) or an upload (Sdk/Uploads). `MotionMeshClient` (Sdk/Client) is the class for
--   server code; its `uploadVideo` opens an upload at the API, sends the chunks to the addresses
--   that the API gives out, and completes the upload. Sdk/Auth is `getEnvConfig` and
--   `verifyApiKeySignature`, Sdk/Errors is `handleApiError` and the texts that the services make of
--   an error body.
-- * client/dashboard is the web application; the paths here are below client/dashboard/src.
--   Dashboard/Toast is its toast store, hooks/use-toast.ts: the reducer, the timers that remove
--   toasts and the listeners, as a machine of events.
--   Dashboard/Thumbnail is the route app/api/videos/[id]/thumbnail/route.ts, Dashboard/Buckets the
--   page app/dashboard/buckets/[id]/page.tsx: the groups of its objects, their table, and the
--   editing of the bucket. Dashboard/Keys is the state, the handlers and the screen of
--   app/dashboard/keys/page.tsx, Dashboard/Activity the log, the filters and the screen of
--   app/dashboard/activity/page.tsx, Dashboard/Pages the handlers of the pages for videos, one
--   video, buckets, branding and media conversion, with the lists that they show, their polling,
--   the place of the watermark and the forms that create a bucket and a job, Dashboard/Billing those of app/dashboard/billing/page.tsx with the
--   screens of billing and of usage and the buttons of the prices, Dashboard/Home what
--   app/dashboard/page.tsx makes of the lists of the API, Dashboard/Settings the pages for
--   settings, team and status. Dashboard/Figures is lib/utils.ts and the components that show
--   figures, Dashboard/Navigation the bars, the palette, the notifications and lib/api-client.ts.
--   Dashboard/Routes is app/api/motionmesh, the routes that mount the handlers of the two
--   packages below.
-- * sdk/js/packages/player is the player; the paths here are below its src. Player/Process is the
--   handler that an application mounts for it, services/processRequest.ts, which passes
--   settings, events and playback requests on to the API; Player/Keys is what it accepts as a key,
--   Player/Country the cache of the viewer's country, both utils/index.ts. Player/Views is the
--   component MotionmeshPlayer, react/index.tsx: its lock of unique views, its request for the video
--   and the events that it sends; Player/Reports is the body of an event and what the handler makes
--   of it. Player/Media is the loading of its files and their object URLs, Player/Thumbnails the
--   track of thumbnails that it signs and the face that it shows, Player/Urls how it signs
--   addresses and looks, and Player/Subtitles its conversion of subtitles.
--
-- How the code is read:
-- * Js/Value has the values that come from or go to JSON, with truthiness, property access,
--   `String`, `Number` and `JSON.stringify` as the language defines them. Js/Number has whole numbers
--   and NaN; fractions, infinities and -0 are left out, and rounding is exact. Js/Exception has what
--   code throws: an `Error` with its text, or a `PlanRequiredError`. The texts of the engine's own
--   TypeErrors are V8's.
-- * An `async` function is a function of the world (Http): the list of requests sent so far and of
--   progress reports, which it extends. `throw` and `catch` are results, and what was sent before a
--   throw stays sent. `await` of a call is the call: the functions of the SDK start one call at a
--   time. `fetch` is the field of a record `Host`: what it answers may depend on all that was sent
--   before. A response carries what reading its body as JSON and as text gives. The environment is
--   a field of `Host` too.
-- * A request body that is JSON is the value that is left after `JSON.stringify`; its text is not
--   spelled out. A query string is (Http/Query), with its percent encoding.
-- * Texts are lists of code points, JavaScript's are UTF-16; where the code counts units, at the
--   end of a key that it made, they are ASCII. `atob` is Js/Base64. A regular expression is a scan.
-- * What reacts to events in a browser (the toasts, the player's component, the pages) is a state
--   with one function for each handler and for each end of a request, so every order of events
--   is a list of steps. Positions in a video and dates are whole milliseconds.
-- * Loops are recursions on the list that the code iterates over, so no fuel is needed but for
--   the decimal print of a number, which has at most as many digits as its value plus one.
--
-- Not modelled: React itself, markup, styles and icons, generated API types, `console` calls, the
-- text of dates, which the browser makes, and the query library, whose lists the pages' states
-- hold. `onProgress` is recorded whether or not the caller gives one.
pub mod Base
pub mod Js
pub mod Http
pub mod Sdk
pub mod Dashboard
pub mod Player
