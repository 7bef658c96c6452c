-- ===== src/Plumbing.antt =====
-- What the code takes from go-git (github.com/go-git/go-git), which is not part of the
-- repository: the plumbing types, with the functions on names and hashes as a parameter.
use gnoci.Base.{ℕ, Bool, Option, List, Text}
use gnoci.Outcome.{Result}

-- A hash is the number that its bytes spell, so the zero hash is 0.
abbrev pub Hash : Type 0
Hash = ℕ

abbrev pub zero_hash : Hash
zero_hash = 0

-- A hash reference, plumbing.NewHashReference
pub record Reference : Type 0 where
  pub name : Text
  pub hash : Hash

pub record Commit : Type 0 where
  pub hash : Hash

pub record GoGit : Type 0 where
  -- ReferenceName.IsBranch and IsTag
  pub is_branch : Text → Bool
  pub is_tag : Text → Bool
  -- plumbing.NewHash and Hash.String
  pub new_hash : Text → Hash
  pub hash_string : Hash → Text
  -- Reference.String
  pub show_reference : Reference → Text

-- The local repository as the push and list commands see it (the interface Repository of
-- internal/git/git.go, which go-git implements).
pub record Repository : Type 0 where
  -- Reference(name, true)
  pub reference : Text → Result Reference
  -- Head, `none` where it returns an error
  pub head : Option Reference
  pub commit_object : Hash → Result Commit
  -- IsAncestor of *object.Commit: whether the first is an ancestor of the second
  pub is_ancestor : Commit → Commit → Result Bool
  -- revlist.Objects on the repository's storer: wanted and ignored commits
  pub objects : List Hash → List Hash → Result (List Hash)
