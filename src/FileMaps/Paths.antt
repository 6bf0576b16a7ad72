-- ===== src/FileMaps/Paths.antt =====
-- What fileMaps.py uses of Python's texts: `strip`, `endswith` and `os.path.join`.
use Prim.Native.Char.{Char, code}
use Prim.Native.String.{◌++◌ as ◌<>◌}
use sims_utils.Base.{String, Bool, false, ◌&&◌, ◌||◌, str_eq, if◌then◌else◌, leb, ◌==◌}

-- Space, tab and the ends of lines and pages.
unfoldable pub is_space : Char → Bool
is_space c = code c == 32 || (leb 9 (code c) && leb (code c) 13)

unfoldable pub lstrip : String → String
unfolding is_space
lstrip String.[] = ""
lstrip (String.◌∷◌ c s) = let rest = lstrip s in if is_space c then rest else String.◌∷◌ c s

unfoldable pub rstrip : String → String
unfolding is_space
rstrip String.[] = ""
rstrip (String.◌∷◌ c s) =
    let rest = rstrip s in if str_eq rest "" && is_space c then "" else String.◌∷◌ c rest

unfoldable pub strip : String → String
unfolding lstrip rstrip
strip s = rstrip (lstrip s)

unfoldable pub ends_with : String → String → Bool
ends_with t String.[] = str_eq "" t
ends_with t (String.◌∷◌ c s) = str_eq (String.◌∷◌ c s) t || ends_with t s

unfoldable pub is_absolute : String → Bool
is_absolute String.[] = false
is_absolute (String.◌∷◌ c s) = code c == 47

-- `os.path.join(a, b)`
unfoldable pub join : String → String → String
unfolding is_absolute ends_with
join a b =
    if is_absolute b then b else if str_eq a "" || ends_with "/" a then a <> b else a <> "/" <> b

-- `item if item.endswith('.gz') else item + '.gz'`
unfoldable pub zipped : String → String
unfolding ends_with
zipped name = if ends_with ".gz" name then name else name <> ".gz"
