-- ===== src/Log.antt =====
-- src/include/log.hpp: the levels of severity, and how they are written and read.
use eiptnd.Prelude.{◌≡◌, refl, ap, ◌∙◌, List, [], ◌∷◌, Bytes, codes, equal, if◌then◌else◌}

pub data SeverityLevel : Type 0 where
  flood trace debug info normal notify warning error critical global silence : SeverityLevel

-- level_strings[level]
abbrev pub level_string : SeverityLevel → Bytes
level_string flood = codes "FLOOD"
level_string trace = codes "TRACE"
level_string debug = codes "DEBUG"
level_string info = codes "INFO"
level_string normal = codes "NORMAL"
level_string notify = codes "NOTIFY"
level_string warning = codes "WARNING"
level_string error = codes "ERROR"
level_string critical = codes "CRITICAL"
level_string global = codes "GLOBAL"
level_string silence = codes "SILENCE"

-- The levels in the order of their numbers.
abbrev pub levels : List SeverityLevel
levels =
    flood ∷ trace ∷ debug ∷ info ∷ normal ∷ notify ∷ warning ∷ error ∷ critical ∷ global ∷ silence
    ∷ []

unfoldable pub print : SeverityLevel → Bytes
print level = level_string level

-- The loop of operator>>: `value` is the word that was extracted, in upper case; `level` is kept
-- where no string is the word.
unfoldable pub search_level : List SeverityLevel → Bytes → SeverityLevel → SeverityLevel
search_level [] value level = level
search_level (l ∷ ls) value level =
    let rest = search_level ls value level in if equal (level_string l) value then l else rest

-- operator>>, where `to_upper` is boost::to_upper.
unfoldable pub parse : (Bytes → Bytes) → Bytes → SeverityLevel → SeverityLevel
unfolding search_level
parse to_upper value level = search_level levels (to_upper value) level

-- A word that boost::to_upper takes to what was printed of a level, in whatever case it is written,
-- is read as that level, whatever the level was before.
pub parse-print :
    (to_upper : Bytes → Bytes) (level old : SeverityLevel) (word : Bytes)
    → to_upper word ≡ print level
    → parse to_upper word old ≡ level
unfolding parse print equal
parse-print to_upper level old word h = ap (λ value. search_level levels value old) h ∙ found level
  where
    found : (l : SeverityLevel) → search_level levels (level_string l) old ≡ l
    found flood = refl
    found trace = refl
    found debug = refl
    found info = refl
    found normal = refl
    found notify = refl
    found warning = refl
    found error = refl
    found critical = refl
    found global = refl
    found silence = refl
