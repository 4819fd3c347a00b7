-- ===== src/Calls/Tracks.antt =====
-- internal/calls/sfu.go, the track naming helpers: keys and source labels.
use Prim.Native.Char.{Char, code}
use Prim.Native.String
use combox_backend.Prelude.{
  ℕ, String, Bool, ◌||◌, ◌==◌, eqb, if◌then◌else◌, List, [], ◌∷◌, ◌≡◌, refl,
}
use combox_backend.Prelude.Text.{trim_space}

-- The letters that `strings.ToLower` maps to an ASCII letter. Other letters outside ASCII are left
-- as they are here; Go maps those to letters outside ASCII.
abbrev lower_table : List (ℕ × Char)
lower_table =
    (65, "a")
    ∷ (66, "b")
    ∷ (67, "c")
    ∷ (68, "d")
    ∷ (69, "e")
    ∷ (70, "f")
    ∷ (71, "g")
    ∷ (72, "h")
    ∷ (73, "i")
    ∷ (74, "j")
    ∷ (75, "k")
    ∷ (76, "l")
    ∷ (77, "m")
    ∷ (78, "n")
    ∷ (79, "o")
    ∷ (80, "p")
    ∷ (81, "q")
    ∷ (82, "r")
    ∷ (83, "s")
    ∷ (84, "t")
    ∷ (85, "u")
    ∷ (86, "v")
    ∷ (87, "w")
    ∷ (88, "x")
    ∷ (89, "y")
    ∷ (90, "z")
    ∷ (0x130, "i")
    ∷ (0x212a, "k")
    ∷ []

lower_char : List (ℕ × Char) → Char → Char
lower_char [] c = c
lower_char ((n, l) ∷ rest) c = if eqb n (code c) then l else lower_char rest c

unfoldable pub to_lower : String → String
unfolding lower_char
to_lower String.[] = ""
to_lower (String.◌∷◌ c s) = String.◌∷◌ (lower_char lower_table c) (to_lower s)

-- `normalizeTrackKey`
unfoldable pub normalize_track_key : String → String
unfolding to_lower trim_space
normalize_track_key track_id = trim_space (to_lower track_id)

-- `publishKey`
unfoldable pub publish_key : String → String → String
unfolding normalize_track_key
publish_key owner_id track_id =
    String.◌++◌ owner_id (String.◌++◌ "|" (normalize_track_key track_id))

label : String → String
label s =
    if s == "audio" || s == "mic" || s == "voice"
    then "audio"
    else if s == "screen" || s == "display"
    then "screen"
    else if s == "camera" || s == "cam" || s == "video"
    then "camera"
    else ""

-- `normalizeTrackSource`
unfoldable pub normalize_track_source : String → String
unfolding label to_lower trim_space
normalize_track_source source = label (trim_space (to_lower source))

-- `defaultTrackSource`, of whether the codec is audio
unfoldable pub default_track_source : Bool → String
default_track_source is_audio = if is_audio then "audio" else "camera"

normalize_test : normalize_track_source " Cam " ≡ "camera"
unfolding normalize_track_source
normalize_test = refl
