-- ===== src/Transfer.antt =====
-- The messages of git-lfs's custom transfer protocol and their validation
-- (pkg/protocol/lfs/types.go).
pub mod Checks
pub mod Valid
pub mod Wire
pub mod Reverse
use gnoci.Base.{
  ◌+◌, List, [], ◌∷◌, ◌++◌, Option, Bool, true, false, not, ◌&&◌, Text, text, text_eq, ◌==◌, ℤ, pos,
  negsuc, leb, decimal, if◌then◌else◌,
}
use gnoci.Outcome.{
  Error, sentinel, errorf, wrapf, join_all, invalid_operation, invalid_event, no_remote, empty_oid,
  empty_path, invalid_size, invalid_progress_value,
}

abbrev pub Event : Type 0
Event = Text

abbrev pub init_event : Event
init_event = text "init"

abbrev pub download_event : Event
download_event = text "download"

abbrev pub upload_event : Event
upload_event = text "upload"

abbrev pub terminate_event : Event
terminate_event = text "terminate"

abbrev pub complete_event : Event
complete_event = text "complete"

abbrev pub progress_event : Event
progress_event = text "progress"

abbrev pub Operation : Type 0
Operation = Text

abbrev pub download_operation : Operation
download_operation = text "download"

abbrev pub upload_operation : Operation
upload_operation = text "upload"

pub record InitRequest : Type 0 where
  pub event : Event
  pub operation : Operation
  pub remote : Text
  pub concurrent : Bool
  pub concurrent_transfers : ℤ

pub record ErrCodeMessage : Type 0 where
  pub code : ℤ
  pub message : Text

pub record InitResponse : Type 0 where
  pub error : ErrCodeMessage

pub record TransferRequest : Type 0 where
  pub event : Event
  pub oid : Text
  pub size : ℤ
  pub path : Text

-- `none` is the nil pointer, which the JSON text leaves out.
pub record TransferResponse : Type 0 where
  pub event : Event
  pub oid : Text
  pub path : Text
  pub error : Option ErrCodeMessage

pub record ProgressResponse : Type 0 where
  pub event : Event
  pub oid : Text
  pub bytes_so_far : ℤ
  pub bytes_since_last : ℤ

-- `n < 0` and `n < 1`
abbrev pub is_negative : ℤ → Bool
is_negative (pos n) = false
is_negative (negsuc n) = true

abbrev pub below_one : ℤ → Bool
below_one (pos n) = leb n 0
below_one (negsuc n) = true

-- %d
unfoldable pub signed : ℤ → Text
signed (pos n) = decimal n
signed (negsuc n) = b'-' ∷ decimal (n + 1)

-- `if failed { errs = append(errs, e) }` for each check in turn
abbrev pub failures : List (Bool × Error) → List Error
failures [] = []
failures ((failed, e) ∷ checks) = if failed then e ∷ failures checks else failures checks

-- `if len(errs) > 0 { errs = append([]error{e}, errs...) }`
abbrev pub headed : Error → List Error → List Error
headed e [] = []
headed e (x ∷ xs) = e ∷ x ∷ xs

abbrev pub init_checks : InitRequest → List (Bool × Error)
init_checks r =
    (
      not (r.event == init_event),
      errorf "expected event '%s', got '%s'" (init_event ∷ r.event ∷ []),
    )
    ∷ (
      not (r.operation == download_operation) && not (r.operation == upload_operation),
      wrapf "%w: %s" (r.operation ∷ []) (sentinel invalid_operation),
    )
    ∷ (r.remote == [], sentinel no_remote)
    ∷ []

unfoldable pub validate_init_request : InitRequest → Option Error
validate_init_request r =
    join_all (headed (errorf "invalid InitRequest" []) (failures (init_checks r)))

abbrev pub transfer_checks : TransferRequest → List (Bool × Error)
transfer_checks r =
    (
      not (r.event == download_event) && not (r.event == upload_event),
      wrapf "%w: got %s" (r.event ∷ []) (sentinel invalid_event),
    )
    ∷ (r.oid == [], sentinel empty_oid)
    ∷ (below_one r.size, sentinel invalid_size)
    ∷ (r.event == upload_event && r.path == [], sentinel empty_path)
    ∷ []

unfoldable pub validate_transfer_request : TransferRequest → Option Error
validate_transfer_request r = join_all (failures (transfer_checks r))

abbrev pub response_checks : Event → TransferResponse → List (Bool × Error)
response_checks response_to r =
    (not (r.event == complete_event), wrapf "%w: got %s" (r.event ∷ []) (sentinel invalid_event))
    ∷ (r.oid == [], sentinel empty_oid)
    ∷ (response_to == download_event && r.path == [], sentinel empty_path)
    ∷ []

unfoldable pub validate_transfer_response : Event → TransferResponse → Option Error
validate_transfer_response response_to r = join_all (failures (response_checks response_to r))

abbrev pub progress_checks : ProgressResponse → List (Bool × Error)
progress_checks r =
    (not (r.event == progress_event), sentinel invalid_event)
    ∷ (r.oid == [], sentinel empty_oid)
    ∷ (
      is_negative r.bytes_so_far,
      wrapf "%w: got BytesSoFar = %d" (signed r.bytes_so_far ∷ [])
          (sentinel invalid_progress_value),
    )
    ∷ (
      is_negative r.bytes_since_last,
      wrapf "%w: got BytesSinceLast = %d" (signed r.bytes_since_last ∷ [])
          (sentinel invalid_progress_value),
    )
    ∷ []

unfoldable pub validate_progress_response : ProgressResponse → Option Error
validate_progress_response r = join_all (failures (progress_checks r))
