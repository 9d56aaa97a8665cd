-- ===== src/Dashboard/Pages/Watermark.antt =====
-- client/dashboard/src/app/dashboard/branding/page.tsx: the upload of a watermark, which is simulated,
-- and the settings and the preview. An object URL is named by its file.
use motionmesh.Base.{Bool, true, false, Option, none, some, String, List, [], ◌∷◌, ◌++◌, codes}
use motionmesh.Js.Exception.{Result, ok, thrown}
use motionmesh.Http.{HttpResponse}
use motionmesh.Player.Urls.{includes}

-- The state of the upload, with the files whose timeouts are pending.
pub record Upload : Type 0 where
  pub asset_url : Option String
  pub is_uploading : Bool
  pub pending : List String
  pub toasts : List String

-- `handleFileUpload`, with the file that was chosen and what the request comes to; the answer is
-- not looked at.
unfoldable pub handle_file_upload : Option String → Result HttpResponse → Upload → Upload
handle_file_upload none answer s = s
handle_file_upload (some file) (ok r) s = record s {
  is_uploading = true;
  pending = s.pending ++ file ∷ [];
}
handle_file_upload (some file) (thrown e) s = record s {
  is_uploading = false;
  toasts = s.toasts ++ "Error" ∷ [];
}

-- The first timeout calls back.
abbrev pub finish_upload : List String → Upload → Upload
finish_upload [] s = s
finish_upload (file ∷ files) s = record {
  asset_url = some file;
  is_uploading = false;
  pending = files;
  toasts = s.toasts ++ "Success" ∷ [];
}

unfoldable pub upload_timeout : Upload → Upload
upload_timeout s = finish_upload s.pending s

-- Where the preview shows the watermark.
pub record Place : Type 0 where
  pub is_top : Bool
  pub is_left : Bool

unfoldable pub preview_place : String → Place
preview_place position = record {
  is_top = includes (codes "top") (codes position);
  is_left = includes (codes "left") (codes position);
}

-- What the page shows: an offer to change the plan where it is known that the plan has no branding.
abbrev pub shows_upgrade : Option Bool → Bool
shows_upgrade none = false
shows_upgrade (some true) = false
shows_upgrade (some false) = true
