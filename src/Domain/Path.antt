-- ===== src/Domain/Path.antt =====
-- `RelativePath` of src/domain/types.rs, over `Path::components` of Rust's std::path.
use cache_cleaner.Base.{
  ℕ, ◌+◌, Bool, false, ◌||◌, Option, none, some, List, [], ◌∷◌, ◌++◌, ltb, ◌==◌, if◌then◌else◌, any,
}
use cache_cleaner.Base.Text.{Text, codes, text_eq, byte_len, is_control, split, starts_with}

-- A path is kept as the text that it was made from.
abbrev pub PathText : Type 0
PathText = Text

pub data Component : Type 0 where
  root_dir cur_dir parent_dir : Component
  normal : Text → Component

abbrev pub dot : Text
dot = codes "."

abbrev pub dot_dot : Text
dot_dot = codes ".."

-- One piece between separators: empty pieces and `.` are passed over, except a first `.`.
abbrev pub piece : Text → List Component → List Component
piece p rest =
    if text_eq p [] || text_eq p dot
    then rest
    else if text_eq p dot_dot
    then parent_dir ∷ rest
    else normal p ∷ rest

abbrev pub pieces : List Text → List Component
pieces [] = []
pieces (p ∷ ps) = piece p (pieces ps)

abbrev pub first_pieces : List Text → List Component
first_pieces [] = []
first_pieces (p ∷ ps) = if text_eq p dot then cur_dir ∷ pieces ps else piece p (pieces ps)

-- `Path::is_absolute` on unix
abbrev pub is_absolute : PathText → Bool
is_absolute p = starts_with p (codes "/")

-- `Path::components` on unix
unfoldable pub components : PathText → List Component
components p =
    if is_absolute p then root_dir ∷ pieces (split b'/' p) else first_pieces (split b'/' p)

-- The loop of `parse` over the components, `count` normal ones having been seen.
unfoldable pub count_normal : ℕ → List Component → Option ℕ
count_normal count [] = some count
count_normal count (normal os ∷ rest) =
    let more = count_normal (count + 1) rest in
    if ltb 255 (byte_len os) || ltb 255 (count + 1) then none else more
count_normal count (_ ∷ rest) = none

-- `RelativePath::parse`
unfoldable pub parse : Text → Option PathText
parse s =
    if text_eq s []
    then some []
    else if ltb 4096 (byte_len s)
    then none
    else if any (λ c. is_control c || c == 0) s
    then none
    else if is_absolute s
    then none
    else elim (count_normal 0 (components s)) [
      | none ↦ none
      | some n ↦ if n == 0 then none else some s
    ]

-- `PathBuf::push` of a relative path
abbrev pub push : PathText → PathText → PathText
push base sub =
    if text_eq base []
    then sub
    else if ends_with_slash base
    then base ++ sub
    else base ++ b'/' ∷ sub
  where
    ends_with_slash : Text → Bool
    ends_with_slash [] = false
    ends_with_slash (c ∷ []) = c == b'/'
    ends_with_slash (c ∷ d ∷ s) = ends_with_slash (d ∷ s)

-- `RelativePath::join`
unfoldable pub join : PathText → Text → Option PathText
join self sub = elim (parse sub) [ none ↦ none | some rel ↦ some (push self rel) ]
