-- ===== src/FsLayout.antt =====
-- The names of files (fs_layout.rs) over the bytes of a text, with the tests of `std::path::Path`
-- that the store makes of a relative path.
pub mod Laws
use Prim.Native.Char.{code}
use Prim.Native.String.{String}
use codex_background_task_ha.Base.{
  ℕ, Bool, true, false, not, ◌&&◌, ◌||◌, List, [], ◌∷◌, ◌++◌, leb, ◌==◌, if◌then◌else◌, any_where,
}

-- The bytes of an ASCII text.
abbrev pub codes : String → List ℕ
codes String.[] = []
codes (String.◌∷◌ c s) = code c ∷ codes s

-- `==` on texts.
unfoldable pub same_text : List ℕ → List ℕ → Bool
same_text [] [] = true
same_text [] (b ∷ t) = false
same_text (a ∷ s) [] = false
same_text (a ∷ s) (b ∷ t) = a == b && same_text s t

abbrev pub between : ℕ → ℕ → ℕ → Bool
between lo hi b = leb lo b && leb b hi

unfoldable pub is_ascii_alphanumeric : ℕ → Bool
is_ascii_alphanumeric b = between b'0' b'9' b || between b'A' b'Z' b || between b'a' b'z' b

unfoldable pub is_id_byte : ℕ → Bool
unfolding is_ascii_alphanumeric
is_id_byte b = is_ascii_alphanumeric b || b == b'-' || b == b'_'

unfoldable pub is_nonempty : List ℕ → Bool
is_nonempty [] = false
is_nonempty (b ∷ s) = true

unfoldable pub validate_id_path_component : List ℕ → Bool
unfolding is_nonempty is_id_byte
validate_id_path_component value =
    is_nonempty value && not (any_where (λ b. not (is_id_byte b)) value)

unfoldable pub relative_artifact_payload_path : List ℕ → List ℕ
relative_artifact_payload_path artifact_id = codes "artifacts/" ++ (artifact_id ++ codes "/payload")

-- `Path::is_absolute`, also the test for a component `RootDir`.
unfoldable pub is_absolute : List ℕ → Bool
is_absolute [] = false
is_absolute (b ∷ s) = b == b'/'

abbrev pub cons_head : ℕ → List (List ℕ) → List (List ℕ)
cons_head b [] = (b ∷ []) ∷ []
cons_head b (p ∷ ps) = (b ∷ p) ∷ ps

-- The pieces of a path between its slashes.
unfoldable pub pieces : List ℕ → List (List ℕ)
pieces [] = [] ∷ []
pieces (b ∷ s) = let rest = pieces s in if b == b'/' then [] ∷ rest else cons_head b rest

unfoldable pub is_parent_dir : List ℕ → Bool
unfolding same_text
is_parent_dir p = same_text p (codes "..")

-- Some component is `ParentDir` or `RootDir`.
unfoldable pub escapes : List ℕ → Bool
unfolding is_absolute is_parent_dir pieces
escapes path = is_absolute path || any_where is_parent_dir (pieces path)
