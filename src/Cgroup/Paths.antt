-- ===== src/Cgroup/Paths.antt =====
-- The paths and texts of src/cgroup.rs. A path is the list of its components, the last one first.
use mesh_supervisor.Prelude.{
  nat_beq, if◌then◌else◌, ℕ, Bool, true, false, ◌&&◌, ◌||◌, Option, none, some, List, [], ◌∷◌,
}
use mesh_supervisor.Text.{is_whitespace, strip_prefix, Text, text}

abbrev pub FilePath : Type 0
FilePath = List Text

-- `Path::join` with one component.
abbrev pub join : FilePath → Text → FilePath
join dir name = name ∷ dir

-- "/sys/fs/cgroup"
abbrev pub mount : FilePath
mount = text "cgroup" ∷ text "fs" ∷ text "sys" ∷ []

-- "/proc/self/cgroup"
abbrev pub self_cgroup : FilePath
self_cgroup = text "cgroup" ∷ text "self" ∷ text "proc" ∷ []

unfoldable pub same_text : Text → Text → Bool
same_text [] [] = true
same_text [] (c ∷ t) = false
same_text (c ∷ s) [] = false
same_text (c ∷ s) (b ∷ t) = nat_beq c b && same_text s t

unfoldable pub same_path : FilePath → FilePath → Bool
unfolding same_text
same_path [] [] = true
same_path [] (c ∷ t) = false
same_path (c ∷ s) [] = false
same_path (c ∷ s) (b ∷ t) = same_text c b && same_path s t

-- `path.starts_with(root)`
unfoldable pub is_below : FilePath → FilePath → Bool
unfolding same_path
is_below root [] = same_path [] root
is_below root (name ∷ dir) = same_path (name ∷ dir) root || is_below root dir

-- The components of a text, in order. Empty ones, and those that are one dot, do not count.
abbrev pub cons_component : Text → List Text → List Text
cons_component [] names = names
cons_component (c ∷ s) names = if same_text (c ∷ s) (text ".") then names else (c ∷ s) ∷ names

-- What stands up to a slash, and the components after it.
unfoldable pub split_path : Text → Text × List Text
split_path [] = ([], [])
split_path (c ∷ s) =
    let (name, names) = split_path s in
    if nat_beq c b'/' then ([], cons_component name names) else (c ∷ name, names)

abbrev pub push_all : FilePath → List Text → FilePath
push_all dir [] = dir
push_all dir (name ∷ names) = push_all (join dir name) names

unfoldable pub components : Text → List Text
unfolding split_path
components s = let (name, names) = split_path s in cons_component name names

abbrev pub starts_with_slash : Text → Bool
starts_with_slash [] = false
starts_with_slash (c ∷ s) = nat_beq c b'/'

-- `PathBuf::join`: an absolute path replaces the old one.
unfoldable pub join_relative : FilePath → Text → FilePath
unfolding components
join_relative dir s = push_all (if starts_with_slash s then [] else dir) (components s)

-- `rel.strip_prefix('/').unwrap_or(rel)`
abbrev pub without_slash : Text → Text
without_slash [] = []
without_slash (c ∷ s) = if nat_beq c b'/' then s else c ∷ s

abbrev pub first_line : List Text → Option Text
first_line [] = none
first_line (l ∷ ls) = some l

-- `split_once("::")?.1`
unfoldable pub after_colons : Text → Option Text
after_colons [] = none
after_colons (c ∷ s) =
    let later = after_colons s in
    elim (strip_prefix (text "::") (c ∷ s)) [ none ↦ later | some rest ↦ some rest ]

abbrev pub ends_word : Text → Bool
ends_word [] = true
ends_word (c ∷ s) = is_whitespace c

abbrev pub cons_word : ℕ → List Text → List Text
cons_word c [] = (c ∷ []) ∷ []
cons_word c (w ∷ ws) = (c ∷ w) ∷ ws

-- `split_whitespace`
unfoldable pub words : Text → List Text
words [] = []
words (c ∷ s) =
    let rest = words s in
    if is_whitespace c then rest else if ends_word s then (c ∷ []) ∷ rest else cons_word c rest
