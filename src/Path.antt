-- ===== src/Path.antt =====
-- crates/wasmux/src/kernel/path.rs: lexical normalisation of guest paths.
-- Text is the list of its bytes; `/` and `.` are single bytes of UTF-8, so that splitting bytes is
-- splitting text. `Vec::push` adds at the end of a list, `Vec::pop` drops the last member.
mod Tests
pub mod Normal
use wasmux.Prelude.{
  ℕ, suc, ◌+◌, Bool, true, false, ◌&&◌, ◌||◌, not, Option, none, some, List, [], ◌∷◌, ◌++◌, ◌==◌,
  if◌then◌else◌,
}
use wasmux.Desc.{Bytes}

abbrev pub slash : ℕ
slash = b'/'

abbrev pub dot : ℕ
dot = b'.'

-- Equality of texts.
unfoldable pub same : Bytes → Bytes → Bool
same [] [] = true
same [] (y ∷ ys) = false
same (x ∷ xs) [] = false
same (x ∷ xs) (y ∷ ys) = x == y && same xs ys

unfoldable pub is_empty : Bytes → Bool
is_empty [] = true
is_empty (x ∷ xs) = false

-- `path.starts_with('/')`
unfoldable pub is_absolute : Bytes → Bool
is_absolute [] = false
is_absolute (x ∷ xs) = x == slash

-- `path.split('/')`: never empty, and with an empty text for each end that is a separator.
-- The head of the split, and the rest.
unfoldable pub split : Bytes → Bytes × List Bytes
split [] = ([], [])
split (x ∷ xs) =
    let (first, rest) = split xs in if x == slash then ([], first ∷ rest) else (x ∷ first, rest)

unfoldable pub components : Bytes → List Bytes
unfolding split
components path = let (first, rest) = split path in first ∷ rest

-- `Vec::pop`, its result dropped.
unfoldable pub pop : List Bytes → List Bytes
pop [] = []
pop (x ∷ []) = []
pop (x ∷ y ∷ ys) = x ∷ pop (y ∷ ys)

-- One component: `.` and the empty text are skipped, `..` pops, any other is pushed.
unfoldable pub fold_one : List Bytes → Bytes → List Bytes
unfolding same is_empty pop
fold_one parts component =
    if is_empty component || same component (dot ∷ [])
    then parts
    else if same component (dot ∷ dot ∷ [])
    then pop parts
    else parts ++ (component ∷ [])

unfoldable pub fold_all : List Bytes → List Bytes → List Bytes
unfolding fold_one
fold_all parts [] = parts
fold_all parts (component ∷ rest) = fold_all (fold_one parts component) rest

unfoldable pub normalize : Bytes → Bytes → List Bytes
unfolding fold_all components is_absolute
normalize base path =
    let start = if is_absolute path then [] else fold_all [] (components base) in
    fold_all start (components path)

-- The loop of `join`, on a text that is built at its end.
unfoldable pub join_parts : List Bytes → Bytes
join_parts [] = []
join_parts (part ∷ rest) = slash ∷ (part ++ join_parts rest)

unfoldable pub join : List Bytes → Bytes
unfolding join_parts
join [] = slash ∷ []
join (part ∷ rest) = join_parts (part ∷ rest)
