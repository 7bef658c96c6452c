-- ===== src/Transfer/Wire/Responses.antt =====
-- What the writers of the protocol write, where JSON can print every message and the writer takes
-- every write.
use gnoci.Base.{
  ◌≡◌, ◌≢◌, refl, List, [], ◌∷◌, ◌++◌, Option, none, some, Text, text_eq, ℤ, Option-cases, inl, inr,
  ◌∙◌,
}
use gnoci.Outcome.{Result, ok, err, Error, lift, wrapping, caught, ◌>>=◌}
use gnoci.Transfer.{
  Event, complete_event, download_event, upload_event, progress_event, TransferResponse,
  ProgressResponse, validate_transfer_response, validate_progress_response,
}
use gnoci.Transfer.Valid.{IsComplete, validate_transfer_response-Reports}
use gnoci.Transfer.Wire.{
  Wire, WireCodec, write_line, check, joining, coded_or_nil, answering, write_progress,
  write_transfer_response, write_transfer_upload_response, write_transfer_download_response,
}

-- json.Marshal at the responses
pub record Marshals (json : WireCodec) : Type 0 where
  pub response_raw : TransferResponse → Text
  pub response_is : (r : TransferResponse) → json.marshal_transfer_response r ≡ ok (response_raw r)
  pub progress_raw : ProgressResponse → Text
  pub progress_is : (r : ProgressResponse) → json.marshal_progress_response r ≡ ok (progress_raw r)

abbrev pub put_line : Text → Wire → Wire
put_line raw w = record w {
  out = record w.out { written = w.out.written ++ (raw ++ (b'\n' ∷ [])) };
}

abbrev pub complete : Text → Text → Option Error → TransferResponse
complete oid path e = record {
  event = complete_event;
  oid = oid;
  path = path;
  error = coded_or_nil e;
}

pub write_line-put :
    (raw : Text) (w : Wire) → w.out.fault ≡ none → write_line raw w ≡ (ok tt, put_line raw w)
unfolding write_line
write_line-put raw w h = rw h refl

joining-check : (e : Option Error) → (joining e (ok tt) ≡ ok tt)
joining-check none = refl
joining-check (some e) = refl

pub caught-check : (e : Option Error) → caught (check e) ≡ ok (check e)
caught-check none = refl
caught-check (some e) = refl

module _ (json : WireCodec) (m : Marshals json) where
  pub write_transfer_response-put :
      (to : Event) (r : TransferResponse) (e : Option Error) (w : Wire)
      → w.out.fault ≡ none
      → IsComplete to r
      → write_transfer_response json to r e w ≡ (check e, put_line (m.response_raw r) w)
  unfolding write_transfer_response answering lift wrapping ◌>>=◌
  write_transfer_response-put to r e w h valid =
      let passed : validate_transfer_response to r ≡ none =
        (validate_transfer_response-Reports to r).nil.1 valid in
      rw (passed, m.response_is r, write_line-put (m.response_raw r) w h, joining-check e) refl

  pub write_transfer_upload_response-put :
      (oid : Text) (e : Option Error) (w : Wire)
      → w.out.fault ≡ none
      → oid ≢ []
      → write_transfer_upload_response json oid e w
        ≡ (check e, put_line (m.response_raw (complete oid [] e)) w)
  unfolding write_transfer_upload_response
  write_transfer_upload_response-put oid e w h given =
      write_transfer_response-put upload_event (complete oid [] e) e w h
        (record { event_is = refl; oid_given = given; path_given = λ n. cc })

  pub write_transfer_download_response-put :
      (oid path : Text) (e : Option Error) (w : Wire)
      → w.out.fault ≡ none
      → oid ≢ []
      → path ≢ []
      → write_transfer_download_response json oid path e w
        ≡ (check e, put_line (m.response_raw (complete oid path e)) w)
  unfolding write_transfer_download_response
  write_transfer_download_response-put oid path e w h given there =
      write_transfer_response-put download_event (complete oid path e) e w h
        (record { event_is = refl; oid_given = given; path_given = λ n. there })

  -- A download whose path is not known cannot be answered: Validate refuses the response, and nothing
  -- is written.
  pub write_transfer_download_response-unwritten :
      (oid : Text) (e : Error) (w : Wire)
      → (x : Error) × (write_transfer_download_response json oid [] (some e) w
          ≡ (err (Error.join e x), w))
  unfolding write_transfer_download_response write_transfer_response answering lift wrapping ◌>>=◌
  write_transfer_download_response-unwritten oid e w =
      elim (Option-cases (validate_transfer_response download_event (complete oid [] (some e)))) [
        | inl h ↦ absurd (
            ((validate_transfer_response-Reports download_event (complete oid [] (some e))).nil.0
                h).path_given
              refl refl)
        | inr (x, h) ↦ (x, rw h refl)
      ]

  abbrev progress : Text → ℤ × ℤ → ProgressResponse
  progress oid (total, delta) = record {
    event = progress_event;
    oid = oid;
    bytes_so_far = total;
    bytes_since_last = delta;
  }

  abbrev pub written_or : Text → ℤ × ℤ → Result (Unit {0})
  written_or oid tick = check (validate_progress_response (progress oid tick))

  -- A message of progress that is valid is written.
  unless_invalid : Option Error → Text → Wire → Wire
  unless_invalid none raw w = put_line raw w
  unless_invalid (some e) raw w = w

  unfoldable pub heard : Text → ℤ × ℤ → Wire → Wire
  unfolding unless_invalid
  heard oid tick w =
      unless_invalid (validate_progress_response (progress oid tick))
        (m.progress_raw (progress oid tick)) w

  abbrev pub heard_all : Text → List (ℤ × ℤ) → Wire → Wire
  heard_all oid [] w = w
  heard_all oid (tick ∷ ticks) w = heard_all oid ticks (heard oid tick w)

  unless_invalid-fault :
      (o : Option Error) (raw : Text) (w : Wire) → (unless_invalid o raw w).out.fault ≡ w.out.fault
  unfolding unless_invalid
  unless_invalid-fault none raw w = refl
  unless_invalid-fault (some e) raw w = refl

  heard-fault : (oid : Text) (tick : ℤ × ℤ) (w : Wire) → (heard oid tick w).out.fault ≡ w.out.fault
  unfolding heard
  heard-fault oid tick w = unless_invalid-fault _ _ w

  pub heard_all-fault :
      (oid : Text) (ticks : List (ℤ × ℤ)) (w : Wire)
      → w.out.fault ≡ none
      → (heard_all oid ticks w).out.fault ≡ none
  heard_all-fault oid [] w h = h
  heard_all-fault oid (tick ∷ ticks) w h =
      heard_all-fault oid ticks (heard oid tick w) (heard-fault oid tick w ∙ h)

  pub write_progress-heard :
      (oid : Text) (total delta : ℤ) (w : Wire)
      → w.out.fault ≡ none
      → write_progress json oid total delta w
        ≡ (written_or oid (total, delta), heard oid (total, delta) w)
  unfolding heard write_progress lift wrapping ◌>>=◌ unless_invalid
  write_progress-heard oid total delta w h =
      elim (Option-cases (validate_progress_response (progress oid (total, delta)))) [
        | inl e ↦ rw (e, m.progress_is (progress oid (total, delta)), write_line-put _ w h) refl
        | inr (x, e) ↦ rw e refl
      ]
