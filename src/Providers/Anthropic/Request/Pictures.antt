-- ===== src/Providers/Anthropic/Request/Pictures.antt =====
-- What the address of a picture becomes: its media type and its data.
use godwit.Base.{Bool, true, false, not, ◌&&◌, [], ◌∷◌, ◌++◌, nat_beq, ◌≡◌, refl, ap, ◌∙◌}
use godwit.Core.PiiMasking.{Text}
use godwit.Providers.Anthropic.Request.{
  bytes, starts_with, contains, split_commas, media_type_of, parse_image_url,
}

abbrev pub no_comma : Text → Bool
no_comma [] = true
no_comma (c ∷ t) = not (nat_beq c 44) && no_comma t

no_comma-cons : (a b : Bool) → (not a && b) ≡ true → (a ≡ false) × (b ≡ true)
no_comma-cons true b h = cc
no_comma-cons false b h = (refl, h)

split_commas-one : (t : Text) → no_comma t ≡ true → split_commas t ≡ t ∷ []
unfolding split_commas
split_commas-one [] h = refl
split_commas-one (c ∷ t) h =
    let (here, later) = no_comma-cons (nat_beq c 44) (no_comma t) h in
    rw (here, split_commas-one t later)

split_commas-append :
    (s t : Text) → no_comma s ≡ true → split_commas (s ++ (44 ∷ t)) ≡ s ∷ split_commas t
unfolding split_commas
split_commas-append [] t h = refl
split_commas-append (c ∷ s) t h =
    let (here, later) = no_comma-cons (nat_beq c 44) (no_comma s) h in
    rw (here, split_commas-append s t later)

-- The media types that are known.
pub data MediaType : Type 0 where
  png jpeg gif webp : MediaType

abbrev pub name_of : MediaType → Text
name_of png = bytes "image/png"
name_of jpeg = bytes "image/jpeg"
name_of gif = bytes "image/gif"
name_of webp = bytes "image/webp"

abbrev pub header : MediaType → Text
header k = bytes "data:" ++ (name_of k ++ bytes ";base64")

-- "data:image/png;base64,…"
abbrev pub data_url : MediaType → Text → Text
data_url k base64 = header k ++ (44 ∷ base64)

parse_image_url-split :
    (url h base64 : Text)
    → starts_with url (bytes "data:") ≡ true
    → split_commas url ≡ h ∷ (base64 ∷ [])
    → parse_image_url url ≡ (media_type_of h, base64)
unfolding parse_image_url
parse_image_url-split url h base64 begins split = rw (begins, split)

header_plain : (k : MediaType) → no_comma (header k) ≡ true
header_plain png = refl
header_plain jpeg = refl
header_plain gif = refl
header_plain webp = refl

header_begins : (k : MediaType) (t : Text) → starts_with (header k ++ t) (bytes "data:") ≡ true
unfolding starts_with
header_begins png t = refl
header_begins jpeg t = refl
header_begins gif t = refl
header_begins webp t = refl

media_type_of-header : (k : MediaType) → media_type_of (header k) ≡ name_of k
unfolding contains starts_with
media_type_of-header png = refl
media_type_of-header jpeg = refl
media_type_of-header gif = refl
media_type_of-header webp = refl

-- The data address of a picture of a known type is taken apart into that type and the data, if there is
-- no comma in the data.
pub parse_image_url-data_url :
    (k : MediaType) (base64 : Text)
    → no_comma base64 ≡ true
    → parse_image_url (data_url k base64) ≡ (name_of k, base64)
parse_image_url-data_url k base64 h =
    parse_image_url-split (data_url k base64) (header k) base64 (header_begins k (44 ∷ base64)) (
      split_commas-append (header k) base64 (header_plain k)
      ∙ ap (λ l. header k ∷ l) (split_commas-one base64 h))
    ∙ ap (λ m. (m, base64)) (media_type_of-header k)
