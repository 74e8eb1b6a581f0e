-- ===== src/Protocol/Rules/Paths.antt =====
-- A path that `relativeRepositoryPath` admits stays inside the repository.
use ago.Prelude.{◌≡◌, true, false, ◌||◌, List, [], ◌∷◌, any, arith, ◌==◌, if◌then◌else◌, is_empty}
use ago.GoString.{GoString, codes, str_eq, has_prefix, has_suffix, contains}
use ago.Protocol.Rules.{relative_repository_path}

-- The first component of a path, and the others.
abbrev pub first : GoString → GoString
first [] = []
first (c ∷ s) = if c == b'/' then [] else c ∷ first s

abbrev pub others : GoString → List GoString
others [] = []
others (c ∷ s) = if c == b'/' then first s ∷ others s else others s

abbrev pub dots : GoString
dots = b'.' ∷ b'.' ∷ []

first-dots :
    (s : GoString) → first s ≡ dots → (str_eq s (codes "..") || has_prefix s (codes "../")) ≡ true
unfolding has_prefix
first-dots [] h = cc
first-dots (a ∷ []) h = ground arith
first-dots (a ∷ b ∷ []) h = ground arith
first-dots (a ∷ b ∷ c ∷ s) h = ground arith

others-dots :
    (s : GoString)
    → any (str_eq dots) (others s) ≡ true
    → (contains s (codes "/../") || has_suffix s (codes "/..")) ≡ true
unfolding contains has_suffix any has_prefix
others-dots [] h = cc
others-dots (c ∷ s) h = ground (arith, others-dots s, first-dots s)

-- An admitted path is not empty, does not begin with a slash, and none of its components, the parts
-- between slashes, is the parent reference.
pub relative_repository_path_inside :
    (s : GoString)
    → relative_repository_path s ≡ true
    → (is_empty s ≡ false)
      × (has_prefix s (codes "/") ≡ false)
      × (any (str_eq dots) (first s ∷ others s) ≡ false)
unfolding relative_repository_path any
relative_repository_path_inside s h = ground (arith, first-dots s, others-dots s)
