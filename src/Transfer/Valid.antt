-- ===== src/Transfer/Valid.antt =====
-- What the Validate methods accept and report.
use gnoci.Base.{
  ◌≡◌, refl, ◌↔◌, List, [], ◌∷◌, none, some, false, not, ◌&&◌, text_eq, ◌==◌, ◌∙◌, ◌⊎◌, ◌≢◌, arith,
}
use gnoci.Outcome.{
  errorf, invalid_operation, invalid_event, no_remote, empty_oid, empty_path, invalid_size,
}
use gnoci.Transfer.{
  Event, init_event, download_event, upload_event, complete_event, download_operation,
  upload_operation, InitRequest, TransferRequest, TransferResponse, below_one, failures,
  init_checks, transfer_checks, response_checks, validate_init_request, validate_transfer_request,
  validate_transfer_response,
}
use gnoci.Transfer.Checks.{
  Fault, Reports, any_failed, failures-nil, failures-reported, headed-nil, headed-reported,
}

-- What a request to start must have
pub record IsInit (r : InitRequest) : Type 0 where
  pub event_is : r.event ≡ init_event
  pub operation_is : (r.operation ≡ download_operation) ⊎ (r.operation ≡ upload_operation)
  pub remote_given : r.remote ≢ []

abbrev pub init_faults : InitRequest → List Fault
init_faults r =
    (not (r.event == init_event), none)
    ∷ (
      not (r.operation == download_operation) && not (r.operation == upload_operation),
      some invalid_operation,
    )
    ∷ (r.remote == [], some no_remote)
    ∷ []

module _ (r : InitRequest) where
  init_checks-IsInit : (any_failed (init_checks r) ≡ false) ↔ IsInit r
  init_checks-IsInit = (
    λ h. record {
      event_is = ground (arith, h, text_eq.beq_iff r.event init_event);
      operation_is = ground (
        arith,
        h,
        text_eq.beq_iff r.operation download_operation,
        text_eq.beq_iff r.operation upload_operation,
      );
      remote_given = ground (arith, h, text_eq.beq_iff r.remote []);
    },
    λ a. ground (
      arith,
      a.event_is,
      a.operation_is,
      a.remote_given,
      text_eq.beq_iff r.event init_event,
      text_eq.beq_iff r.operation download_operation,
      text_eq.beq_iff r.operation upload_operation,
      text_eq.beq_iff r.remote [],
    ),
  )

  -- Validate of an InitRequest returns nil exactly when the event is "init", the operation is one of
  -- the two, and a remote is given; otherwise its error is ErrInvalidOperation and ErrNoRemote, for
  -- errors.Is, exactly when the operation is another one and the remote is empty, and no other
  -- sentinel.
  pub validate_init_request-Reports : Reports (IsInit r) (init_faults r) (validate_init_request r)
  unfolding validate_init_request
  validate_init_request-Reports = record {
    nil = (
      λ h. init_checks-IsInit.0 (
          (failures-nil (init_checks r)).0
            ((headed-nil (errorf "invalid InitRequest" []) (failures (init_checks r))).0 h)),
      λ h.
          (headed-nil (errorf "invalid InitRequest" []) (failures (init_checks r))).1
            ((failures-nil (init_checks r)).1 (init_checks-IsInit.1 h)),
    );
    sentinels = λ s.
        headed-reported s (errorf "invalid InitRequest" []) (failures (init_checks r)) refl
        ∙ failures-reported s (init_checks r);
  }

-- What a response that ends a transfer must have. Only the response to a download needs a path.
pub record IsComplete (to : Event) (r : TransferResponse) : Type 0 where
  pub event_is : r.event ≡ complete_event
  pub oid_given : r.oid ≢ []
  pub path_given : to ≡ download_event → r.path ≢ []

abbrev pub response_faults : Event → TransferResponse → List Fault
response_faults to r =
    (not (r.event == complete_event), some invalid_event)
    ∷ (r.oid == [], some empty_oid)
    ∷ (to == download_event && r.path == [], some empty_path)
    ∷ []

module _ (to : Event) (r : TransferResponse) where
  response_checks-IsComplete : (any_failed (response_checks to r) ≡ false) ↔ IsComplete to r
  response_checks-IsComplete = (
    λ h. record {
      event_is = ground (arith, h, text_eq.beq_iff r.event complete_event);
      oid_given = ground (arith, h, text_eq.beq_iff r.oid []);
      path_given = ground (arith, h, text_eq.beq_iff to download_event, text_eq.beq_iff r.path []);
    },
    λ a. ground (
      arith,
      a.event_is,
      a.oid_given,
      a.path_given,
      text_eq.beq_iff r.event complete_event,
      text_eq.beq_iff r.oid [],
      text_eq.beq_iff to download_event,
      text_eq.beq_iff r.path [],
    ),
  )

  -- Validate of a TransferResponse to an event returns nil exactly when its event is "complete", it
  -- has an oid, and, in response to a download, a path; otherwise its error is ErrInvalidEvent,
  -- ErrEmptyOID and ErrEmptyPath exactly when the event, the oid and the path are wrong, and no other
  -- sentinel.
  pub validate_transfer_response-Reports :
      Reports (IsComplete to r) (response_faults to r) (validate_transfer_response to r)
  unfolding validate_transfer_response
  validate_transfer_response-Reports = record {
    nil = (
      λ h. response_checks-IsComplete.0 ((failures-nil (response_checks to r)).0 h),
      λ h. (failures-nil (response_checks to r)).1 (response_checks-IsComplete.1 h),
    );
    sentinels = λ s. failures-reported s (response_checks to r);
  }

-- What a request to transfer must have. Only an upload needs a path.
pub record IsTransfer (r : TransferRequest) : Type 0 where
  pub event_is : (r.event ≡ download_event) ⊎ (r.event ≡ upload_event)
  pub oid_given : r.oid ≢ []
  pub size_positive : below_one r.size ≡ false
  pub path_given : r.event ≡ upload_event → r.path ≢ []

abbrev pub transfer_faults : TransferRequest → List Fault
transfer_faults r =
    (not (r.event == download_event) && not (r.event == upload_event), some invalid_event)
    ∷ (r.oid == [], some empty_oid)
    ∷ (below_one r.size, some invalid_size)
    ∷ (r.event == upload_event && r.path == [], some empty_path)
    ∷ []

module _ (r : TransferRequest) where
  transfer_checks-IsTransfer : (any_failed (transfer_checks r) ≡ false) ↔ IsTransfer r
  transfer_checks-IsTransfer = (
    λ h. record {
      event_is =
          ground (
            arith,
            h,
            text_eq.beq_iff r.event download_event,
            text_eq.beq_iff r.event upload_event,
          );
      oid_given = ground (arith, h, text_eq.beq_iff r.oid []);
      size_positive = ground (arith, h);
      path_given =
          ground (arith, h, text_eq.beq_iff r.event upload_event, text_eq.beq_iff r.path []);
    },
    λ a. ground (
      arith,
      a.event_is,
      a.oid_given,
      a.size_positive,
      a.path_given,
      text_eq.beq_iff r.event download_event,
      text_eq.beq_iff r.event upload_event,
      text_eq.beq_iff r.oid [],
      text_eq.beq_iff r.path [],
    ),
  )

  -- Validate of a TransferRequest returns nil exactly when its event is "download" or "upload", it
  -- has an oid and a size of at least one, and, for an upload, a path; otherwise its error is
  -- ErrInvalidEvent, ErrEmptyOID, ErrInvalidSize and ErrEmptyPath exactly when that part is wrong, and
  -- no other sentinel.
  pub validate_transfer_request-Reports :
      Reports (IsTransfer r) (transfer_faults r) (validate_transfer_request r)
  unfolding validate_transfer_request
  validate_transfer_request-Reports = record {
    nil = (
      λ h. transfer_checks-IsTransfer.0 ((failures-nil (transfer_checks r)).0 h),
      λ h. (failures-nil (transfer_checks r)).1 (transfer_checks-IsTransfer.1 h),
    );
    sentinels = λ s. failures-reported s (transfer_checks r);
  }
