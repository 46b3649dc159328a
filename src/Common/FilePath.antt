-- ===== src/Common/FilePath.antt =====
-- What the program uses of Go's strings.Split, strings.Join, strings.Trim and path/filepath on Unix.
pub mod Elements
use next_deploy.Common.Text.{Text, codes, text_eq, has_prefix, has_suffix}
use Prim.Native.Nat.{ℕ, ◌-◌}
use mathlib.Core.Bool.{Bool, true, false, not, ◌&&◌, ◌||◌}
use mathlib.Core.List.{List, [], ◌∷◌, ◌++◌, reverse}
use next_deploy.Common.Tests.{◌==◌, if◌then◌else◌}
use next_deploy.Common.Lists.{length, take, drop}

-- A byte put before the first of the parts.
unfoldable pub onto_part : ℕ → List Text → List Text
onto_part c [] = (c ∷ []) ∷ []
onto_part c (part ∷ parts) = (c ∷ part) ∷ parts

-- strings.Split(s, sep) for a separator of one byte.
unfoldable pub split_on : ℕ → Text → List Text
unfolding onto_part
split_on sep [] = [] ∷ []
split_on sep (c ∷ cs) =
    let rest = split_on sep cs in if c == sep then [] ∷ rest else onto_part c rest

-- strings.Join(parts, sep)
unfoldable pub join_on : Text → List Text → Text
join_on sep [] = []
join_on sep (part ∷ []) = part
join_on sep (part ∷ next ∷ parts) = part ++ (sep ++ join_on sep (next ∷ parts))

unfoldable pub trim_prefix : Text → Text → Text
trim_prefix s p = if has_prefix s p then drop (length p) s else s

unfoldable pub trim_suffix : Text → Text → Text
trim_suffix s p = if has_suffix s p then take (length s - length p) s else s

-- strings.TrimLeft and strings.Trim of one byte.
unfoldable pub trim_left_of : ℕ → Text → Text
trim_left_of c [] = []
trim_left_of c (x ∷ xs) = let rest = trim_left_of c xs in if x == c then rest else x ∷ xs

unfoldable pub trim_of : ℕ → Text → Text
unfolding trim_left_of
trim_of c s = reverse (trim_left_of c (reverse (trim_left_of c s)))

abbrev pub slash : ℕ
slash = b'/'

-- One element of a path in filepath.Clean; the stack has its top at the head.
unfoldable pub clean_part : Bool → Text → List Text → List Text
clean_part rooted part [] =
    if text_eq part [] || text_eq part (codes ".")
    then []
    else if text_eq part (codes "..") && rooted
    then []
    else part ∷ []
clean_part rooted part (top ∷ stack) =
    if text_eq part [] || text_eq part (codes ".")
    then top ∷ stack
    else if text_eq part (codes "..") && not (text_eq top (codes ".."))
    then stack
    else part ∷ top ∷ stack

unfoldable pub clean_parts : Bool → List Text → List Text → List Text
unfolding clean_part
clean_parts rooted [] stack = stack
clean_parts rooted (part ∷ parts) stack = clean_parts rooted parts (clean_part rooted part stack)

unfoldable pub is_abs : Text → Bool
is_abs p = has_prefix p (slash ∷ [])

-- A path of its elements.
unfoldable pub path_of : Bool → List Text → Text
path_of true parts = slash ∷ join_on (slash ∷ []) parts
path_of false [] = codes "."
path_of false (part ∷ parts) = join_on (slash ∷ []) (part ∷ parts)

-- filepath.Clean
unfoldable pub clean : Text → Text
unfolding is_abs clean_parts path_of
clean p = path_of (is_abs p) (reverse (clean_parts (is_abs p) (split_on slash p) []))

-- filepath.Join(dir, name), for a `dir` that is not empty.
unfoldable pub join_path : Text → Text → Text
unfolding clean
join_path dir name = clean (dir ++ slash ∷ name)

-- The path up to its last slash, that included.
unfoldable pub dir_part : Text → Text
dir_part [] = []
dir_part (c ∷ cs) =
    let rest = dir_part cs in
    if text_eq rest [] then (if c == slash then slash ∷ [] else []) else c ∷ rest

-- filepath.Dir
unfoldable pub path_dir : Text → Text
unfolding dir_part clean
path_dir p = clean (dir_part p)

unfoldable pub last_part : Text → Text
last_part p = if text_eq p [] then slash ∷ [] else drop (length (dir_part p)) p

-- filepath.Base
unfoldable pub path_base : Text → Text
unfolding dir_part last_part trim_left_of
path_base p =
    if text_eq p [] then codes "." else last_part (reverse (trim_left_of slash (reverse p)))

-- filepath.Ext: from the last dot of the last element on.
unfoldable pub path_ext : Text → Text
unfolding dir_part
path_ext [] = []
path_ext (c ∷ cs) =
    let rest = path_ext cs in
    if text_eq rest [] then (if c == b'.' && text_eq (dir_part cs) [] then c ∷ cs else []) else rest
