-- ===== src/Codec/Tests.antt =====
-- CQ codes read and written.
use rocket_cat_shell_linux.Base.{◌≡◌, refl, none, some, [], ◌∷◌, map}
use rocket_cat_shell_linux.Base.Dict.{get}
use rocket_cat_shell_linux.Base.Text.{codes, text_beq}
use rocket_cat_shell_linux.Codec.{
  segment, other, segments_to_cq, cq_to_segments, escape_text, escape_param, unescape,
}
use rocket_cat_shell_linux.Codec.Escape.{unescape_inverts}
use rocket_cat_shell_linux.Codec.Params.{present}
use rocket_cat_shell_linux.Codec.RoundTrip.{Part, raw, read, cq_to_segments-segments_to_cq}

reads :
    cq_to_segments (codes "hi [CQ:at,qq=1&#44;2]&amp;[CQ:x][CQ:y")
    ≡ record { type = codes "text"; payload = (codes "text", codes "hi ") ∷ [] }
      ∷ record { type = codes "at"; payload = (codes "qq", codes "1,2") ∷ [] }
      ∷ record { type = codes "text"; payload = (codes "text", codes "&") ∷ [] }
      ∷ record { type = codes "x"; payload = [] }
      ∷ record { type = codes "text"; payload = (codes "text", codes "[CQ:y") ∷ [] }
      ∷ []
unfolding cq_to_segments
reads = refl

writes :
    segments_to_cq (
      segment none ((codes "text", some (codes "a[b")) ∷ [])
      ∷ segment (some (codes "at")) ((codes "qq", some (codes "1,2")) ∷ (codes "n", none) ∷ [])
      ∷ other (codes "&")
      ∷ [])
    ≡ codes "a&#91;b[CQ:at,qq=1&#44;2]&amp;"
unfolding segments_to_cq text_beq
writes = refl

abbrev greeting : Part
greeting = Part.text (codes "a[b")

abbrev mention : Part
mention = Part.code (codes "at") ((codes "qq", some (codes "1,2")) ∷ (codes "n", none) ∷ [])

cq_to_segments-segments_to_cq_example :
    cq_to_segments (segments_to_cq (map raw (greeting ∷ mention ∷ [])))
    ≡ map read (greeting ∷ mention ∷ [])
unfolding text_beq get present
cq_to_segments-segments_to_cq_example =
    cq_to_segments-segments_to_cq greeting (mention ∷ [])
      (
        refl,
        (
          (
            refl,
            refl,
            (refl, (refl, tt)),
            (refl, tt),
            ((refl, ((refl, refl), ((refl, refl), tt))), tt),
          ),
          tt,
        ),
      )
      (refl, tt)

unescape_inverts_example :
    (unescape (escape_text (codes "a,&#44;[x]")) ≡ codes "a,&#44;[x]")
    × (unescape (escape_param (codes "a,&#44;[x]")) ≡ codes "a,&#44;[x]")
unescape_inverts_example = unescape_inverts (codes "a,&#44;[x]")
