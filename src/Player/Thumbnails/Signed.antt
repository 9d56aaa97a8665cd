-- ===== src/Player/Thumbnails/Signed.antt =====
-- A track of thumbnails is signed line by line.
use mathlib.Core.List.{append-nil, append_assoc}
use motionmesh.Base.{ℕ, ◌≡◌, refl, ap, ◌∙◌, Option, some, List, [], ◌∷◌, ◌++◌, map}
use motionmesh.Base.Lists.{All}
use motionmesh.Player.Urls.{begins}
use motionmesh.Player.Subtitles.Lines.{IsLine, join}
use motionmesh.Player.Thumbnails.{
  is_blank, is_kept, map_option, append_option, sign_line, sign_from, sign_track,
}
use motionmesh.Player.Thumbnails.TrackLines.{
  TrackLine, text_of, IsTrackLine, signed_line, sign_line-signed_line,
}

module _ (address : List ℕ → Option (List ℕ)) where
  -- Each line signed, with its end, if every address is one.
  abbrev pub signed_lines : List TrackLine → Option (List ℕ)
  signed_lines [] = some []
  signed_lines (l ∷ ls) =
      append_option (signed_line address l) (map_option (λ r. 10 ∷ r) (signed_lines ls))

  sign_from-line :
      (line l s : List ℕ)
      → IsLine l
      → sign_from address line (l ++ (10 ∷ s))
        ≡ append_option
            (sign_line address (line ++ l))
            (map_option (λ r. 10 ∷ r) (sign_from address [] s))
  unfolding sign_from
  sign_from-line line [] s h = rw (append-nil line) refl
  sign_from-line line (c ∷ l) s (n, h) =
      rw n (sign_from-line (line ++ c ∷ []) l s h ∙ rw (append_assoc line (c ∷ []) l) refl)

  sign_line-nil : sign_line address [] ≡ some []
  unfolding sign_line is_kept is_blank begins
  sign_line-nil = refl

  -- In a track of a head, notes, blank lines, times and images, each with its end, signing replaces
  -- the images and nothing else: an image, with the spaces around it left out, by the signed
  -- address of its path and then its fragment. The whole fails where one address fails.
  pub sign_track-lines :
      (ls : List TrackLine)
      → All IsTrackLine ls
      → All (λ l. IsLine (text_of l)) ls
      → sign_track address (join (map text_of ls)) ≡ signed_lines ls
  unfolding sign_track
  sign_track-lines [] h k = unfold sign_from in sign_line-nil
  sign_track-lines (l ∷ ls) (h, hs) (k, ks) =
      sign_from-line [] (text_of l) (join (map text_of ls)) k
      ∙ ap
          (λ o.
            append_option o
              (map_option (λ r. 10 ∷ r) (sign_from address [] (join (map text_of ls)))))
          (sign_line-signed_line address l h)
      ∙ ap (λ o. append_option (signed_line address l) (map_option (λ r. 10 ∷ r) o))
          (sign_track-lines ls hs ks)
