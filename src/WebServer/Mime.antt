-- ===== src/WebServer/Mime.antt =====
-- `get_mime_type` of WebServer/src/webServer.cpp.
use cpp_tiny_lab.Base.{
  ◌≡◌, ◌≢◌, refl, Bool, true, false, ◌||◌, none, some, List, [], ◌∷◌, ◌++◌, if◌then◌else◌, All,
}
use cpp_tiny_lab.Base.Bytes.{Bytes, codes, bytes_eq, strrchr, strrchr-none, strrchr-append}

abbrev pub text_plain : Bytes
text_plain = codes "text/plain; charset=utf-8"

-- The comparisons of the part that begins at the last dot.
pub mime_of : Bytes → Bytes
mime_of dot =
    if bytes_eq dot (codes ".html") || bytes_eq dot (codes ".htm")
    then codes "text/html; charset=utf-8"
    else if bytes_eq dot (codes ".jpg") || bytes_eq dot (codes ".jpeg")
    then codes "image/jpeg"
    else if bytes_eq dot (codes ".gif")
    then codes "image/gif"
    else if bytes_eq dot (codes ".png")
    then codes "image/png"
    else if bytes_eq dot (codes ".css")
    then codes "text/css"
    else if bytes_eq dot (codes ".au")
    then codes "audio/basic"
    else if bytes_eq dot (codes ".wav")
    then codes "audio/wav"
    else if bytes_eq dot (codes ".avi")
    then codes "video/x-msvideo"
    else if bytes_eq dot (codes ".mov") || bytes_eq dot (codes ".qt")
    then codes "video/quicktime"
    else if bytes_eq dot (codes ".mpeg") || bytes_eq dot (codes ".mpe")
    then codes "video/mpeg"
    else if bytes_eq dot (codes ".vrml") || bytes_eq dot (codes ".wrl")
    then codes "model/vrml"
    else if bytes_eq dot (codes ".midi") || bytes_eq dot (codes ".mid")
    then codes "audio/midi"
    else if bytes_eq dot (codes ".mp3")
    then codes "audio/mpeg"
    else if bytes_eq dot (codes ".ogg")
    then codes "application/ogg"
    else if bytes_eq dot (codes ".pac")
    then codes "application/x-ns-proxy-autoconfig"
    else text_plain

unfoldable pub get_mime_type : Bytes → Bytes
unfolding mime_of
get_mime_type name = elim (strrchr name b'.') [ none ↦ text_plain | some dot ↦ mime_of dot ]

-- The suffixes that the server knows, with their types.
abbrev pub mime_table : List (Bytes × Bytes)
mime_table =
    (codes ".html", codes "text/html; charset=utf-8")
    ∷ (codes ".htm", codes "text/html; charset=utf-8")
    ∷ (codes ".jpg", codes "image/jpeg")
    ∷ (codes ".jpeg", codes "image/jpeg")
    ∷ (codes ".gif", codes "image/gif")
    ∷ (codes ".png", codes "image/png")
    ∷ (codes ".css", codes "text/css")
    ∷ (codes ".au", codes "audio/basic")
    ∷ (codes ".wav", codes "audio/wav")
    ∷ (codes ".avi", codes "video/x-msvideo")
    ∷ (codes ".mov", codes "video/quicktime")
    ∷ (codes ".qt", codes "video/quicktime")
    ∷ (codes ".mpeg", codes "video/mpeg")
    ∷ (codes ".mpe", codes "video/mpeg")
    ∷ (codes ".vrml", codes "model/vrml")
    ∷ (codes ".wrl", codes "model/vrml")
    ∷ (codes ".midi", codes "audio/midi")
    ∷ (codes ".mid", codes "audio/midi")
    ∷ (codes ".mp3", codes "audio/mpeg")
    ∷ (codes ".ogg", codes "application/ogg")
    ∷ (codes ".pac", codes "application/x-ns-proxy-autoconfig")
    ∷ []

abbrev pub lookup_suffix : Bytes → List (Bytes × Bytes) → Bytes
lookup_suffix dot [] = text_plain
lookup_suffix dot ((suffix, mime) ∷ rest) =
    if bytes_eq dot suffix then mime else lookup_suffix dot rest

if-or {ℓ} :
    {A : Type ℓ} (a b : Bool) (x y : A)
    → (if a || b then x else y) ≡ (if a then x else if b then x else y)
if-or true b x y = refl
if-or false b x y = refl

mime_of-lookup : (dot : Bytes) → mime_of dot ≡ lookup_suffix dot mime_table
unfolding mime_of
mime_of-lookup dot = simp if-or

-- A file whose name ends in a dot and `ext`, where `ext` has no dot, gets the type that the table
-- has for its suffix, whatever stands before; one with no dot at all is plain text.
pub get_mime_type-suffix :
    (stem ext : Bytes)
    → All (λ c. c ≢ b'.') ext
    → (get_mime_type (stem ++ b'.' ∷ ext) ≡ lookup_suffix (b'.' ∷ ext) mime_table)
      × (get_mime_type ext ≡ text_plain)
unfolding get_mime_type
get_mime_type-suffix stem ext h = (
  rw (strrchr-append stem ext b'.' h, get_mime_type) (mime_of-lookup (b'.' ∷ ext)),
  rw (strrchr-none ext b'.' h, get_mime_type) refl,
)
