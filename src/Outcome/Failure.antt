-- ===== src/Outcome/Failure.antt =====
-- Go's error values: the sentinels that the packages declare (pkg/protocol/git/errors.go,
-- internal/model/modeler.go, internal/model/modeler_lfs.go, pkg/protocol/lfs/types.go, and
-- ErrNotFound of oras, fs.ErrNotExist), fmt.Errorf and errors.Join, with errors.Is and the text of an error.
use gnoci.Base.{
  ℕ, Bool, false, ◌||◌, List, [], ◌∷◌, ◌++◌, Option, none, some, String, Text, text, nat_beq,
  if◌then◌else◌,
}

pub data Sentinel : Type 0 where
  bad_request unexpected_request unsupported_request empty_request end_of_input : Sentinel
  unsupported_reference_type reference_not_found layer_not_in_manifest : Sentinel
  lfs_manifest_not_found : Sentinel
  invalid_operation invalid_event no_remote empty_oid empty_path : Sentinel
  invalid_size invalid_progress_value : Sentinel
  not_found not_exist : Sentinel

abbrev sentinel_code : Sentinel → ℕ
sentinel_code bad_request = 0
sentinel_code unexpected_request = 1
sentinel_code unsupported_request = 2
sentinel_code empty_request = 3
sentinel_code end_of_input = 4
sentinel_code unsupported_reference_type = 5
sentinel_code reference_not_found = 6
sentinel_code layer_not_in_manifest = 7
sentinel_code lfs_manifest_not_found = 8
sentinel_code invalid_operation = 9
sentinel_code invalid_event = 10
sentinel_code no_remote = 11
sentinel_code empty_oid = 12
sentinel_code empty_path = 13
sentinel_code invalid_size = 14
sentinel_code invalid_progress_value = 15
sentinel_code not_found = 16
sentinel_code not_exist = 17

-- What an error value says, with the texts of errors.New. The text of ErrNotFound is that of its
-- documentation.
sentinel_text : Sentinel → Text
sentinel_text bad_request = text "request is invalid"
sentinel_text unexpected_request = text "unexpected request"
sentinel_text unsupported_request = text "unsupported request"
sentinel_text empty_request = text "empty request"
sentinel_text end_of_input = text "end of input"
sentinel_text unsupported_reference_type = text "unsupported reference type"
sentinel_text reference_not_found = text "reference not found in remote data model"
sentinel_text layer_not_in_manifest = text "layer not found for digest"
sentinel_text lfs_manifest_not_found = text "LFS manifest not found"
sentinel_text invalid_operation = text "invalid operation"
sentinel_text invalid_event = text "invalid event type"
sentinel_text no_remote = text "no remote specified"
sentinel_text empty_oid = text "no oid specified"
sentinel_text empty_path = text "no path specified"
sentinel_text invalid_size = text "invalid file size"
sentinel_text invalid_progress_value = text "invalid progress value"
sentinel_text not_found = text "not found"
sentinel_text not_exist = text "file does not exist"

-- `errorf` is fmt.Errorf (or errors.New) with no %w, and `wrapf` with one: the format, the printed
-- arguments in order, and what is wrapped. `foreign` is an error of another library.
pub data Error : Type 0 where
  sentinel : Sentinel → Error
  errorf : String → List Text → Error
  wrapf : String → List Text → Error → Error
  join : Error → Error → Error
  foreign : Text → Error

-- errors.Is, at a sentinel
abbrev pub is : Sentinel → Error → Bool
is s (sentinel t) = nat_beq (sentinel_code s) (sentinel_code t)
is s (errorf f args) = false
is s (wrapf f args e) = is s e
is s (join a b) = is s a || is s b
is s (foreign t) = false

-- errors.Join: nil when there is no error
abbrev pub join_all : List Error → Option Error
join_all [] = none
join_all (e ∷ es) = elim (join_all es) [ none ↦ some e | some rest ↦ some (join e rest) ]

-- A format with its arguments put in: %w prints the wrapped error, every other verb the next
-- argument.
sprintf : Text → Text → List Text → Text
sprintf wrapped [] args = []
sprintf wrapped (c ∷ []) args = c ∷ []
sprintf wrapped (c ∷ verb ∷ f) [] =
    let plain = c ∷ sprintf wrapped (verb ∷ f) [] in
    let after = wrapped ++ sprintf wrapped f [] in if nat_beq c b'%' then after else plain
sprintf wrapped (c ∷ verb ∷ f) (a ∷ args) =
    let plain = c ∷ sprintf wrapped (verb ∷ f) (a ∷ args) in
    let before = wrapped ++ sprintf wrapped f (a ∷ args) in
    let printed = a ++ sprintf wrapped f args in
    if nat_beq c b'%' then (if nat_beq verb b'w' then before else printed) else plain

-- The method Error
unfoldable pub message : Error → Text
unfolding sentinel_text sprintf
message (sentinel s) = sentinel_text s
message (errorf f args) = sprintf [] (text f) args
message (wrapf f args e) = sprintf (message e) (text f) args
message (join a b) = message a ++ (b'\n' ∷ message b)
message (foreign t) = t
