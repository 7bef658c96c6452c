-- ===== src/Actions/GitLfs/Ends.antt =====
-- The loops of the agent have finitely many rounds: every one but the last takes a line from the
-- input.
use gnoci.Base.{
  ℕ, suc, ◌<◌, List, [], ◌∷◌, ◌≡◌, ◌≢◌, refl, ap, Bool, false, Text, Option, none, some, length,
  arith,
}
use gnoci.Outcome.{Action, Result, ok, err, crash, Error, wrap, continue, lift, ◌>>=◌}
use gnoci.Outcome.Keeps.{Keeps, Keeps-continue, Keeps-lift}
use gnoci.Outcome.Rounds.{rounds, Finishes, rounds-Finishes}
use gnoci.Oci.{Descriptor}
use gnoci.Comms.{Scanner}
use gnoci.Transfer.{TransferRequest}
use gnoci.Transfer.Wire.{
  Wire, WireCodec, deref, read_line, scan_line, at_end, receive_transfer_request,
}
use gnoci.Actions.GitLfs.State.{LfsHost, LfsAction}
use gnoci.Actions.GitLfs.Transfers.{
  upload_request, download_request, next_request, upload_round, download_round, run_upload,
  run_download,
}
use gnoci.Actions.GitLfs.Unread.{InputIs, upload_request-InputIs, download_request-InputIs}

-- json.Unmarshal of an empty text fails.
pub record RefusesEmpty (json : WireCodec) : Type 0 where
  pub refusal : (e : Error) × (json.unmarshal_transfer_request [] ≡ err e)

module _ (json : WireCodec) where
  receive-none :
      RefusesEmpty json
      → (w : Wire) (found : Option TransferRequest) → w.input.lines ≡ []
      → (receive_transfer_request json w).0 ≢ ok found
  unfolding receive_transfer_request read_line scan_line at_end ◌>>=◌
  receive-none refuses w found e h = known w.input.fault _ (rw e at h)
    where
      known :
          (fault : Option Error) (v : Wire)
          → ¬ (
              (continue
                (wrap "reading TransferRequest: %w" [] (at_end fault))
                (λ line.
                  lift
                    (wrap "decoding TransferRequest: %w" [] (json.unmarshal_transfer_request line)))
                v).0
              ≡ ok found)
      known none v n = let (_, refused) = refuses.refusal in cc
      known (some x) v n = cc

  receive-takes :
      (w : Wire) (line : Text) (rest : List Text)
      → w.input.lines ≡ line ∷ rest
      → (receive_transfer_request json w).1.input ≡ record { lines = rest; fault = w.input.fault }
  unfolding receive_transfer_request read_line scan_line ◌>>=◌
  receive-takes w line rest e = rw e refl

module _ {C P K N T F D : Type 0} (host : LfsHost C P K N T F D) where
  -- Without a line left there is no next request.
  next_request-none :
      (a : LfsAction T F D) (req : TransferRequest)
      → RefusesEmpty host.json
      → a.wire.input.lines ≡ []
      → (next_request host a).0 ≢ ok req
  unfolding next_request ◌>>=◌
  next_request-none a req refuses e =
      known (receive_transfer_request host.json a.wire).0
        (λ found. receive-none host.json refuses a.wire found e) _
    where
      known :
          (r : Result (Option TransferRequest))
          → ((found : Option TransferRequest) → r ≢ ok found)
          → (b : LfsAction T F D) → ¬ ((continue r (λ found. lift (deref found)) b).0 ≡ ok req)
      known (ok found) never b h = absurd (never found refl)
      known (err x) never b h = cc
      known (crash k) never b h = cc

  next_request-takes :
      (a : LfsAction T F D) (line : Text) (rest : List Text)
      → a.wire.input.lines ≡ line ∷ rest
      → InputIs host (record { lines = rest; fault = a.wire.input.fault }) (next_request host a).1
  unfolding next_request ◌>>=◌
  next_request-takes a line rest e =
      (Keeps-continue {Inv = InputIs host (record { lines = rest; fault = a.wire.input.fault })}
          (receive_transfer_request host.json a.wire).0 (λ found. lift (deref found))
          (λ found _. Keeps-lift _)).after
        (record a { wire = (receive_transfer_request host.json a.wire).1 })
        (receive-takes host.json a.wire line rest e)

  abbrev lines_left : LfsAction T F D → ℕ
  lines_left a = length a.wire.input.lines

  module _ (answer : TransferRequest → Action (LfsAction T F D) Bool)
      (reads_not : (i : Scanner) (req : TransferRequest) → Keeps (InputIs host i) (answer req))
      (refuses : RefusesEmpty host.json) where
    abbrev round : Action (LfsAction T F D) Bool
    round = do req ← next_request host; answer req

    round-takes :
        (a : LfsAction T F D) (lines : List Text)
        → a.wire.input.lines ≡ lines
        → (round a).0 ≡ ok false
        → lines_left (round a).1 < length lines
    unfolding ◌>>=◌
    round-takes a [] e h =
        absurd (known (next_request host a).0 (λ req. next_request-none a req refuses e) _ h)
      where
        known :
            (r : Result TransferRequest)
            → ((req : TransferRequest) → r ≢ ok req)
            → (b : LfsAction T F D) → ¬ ((continue r answer b).0 ≡ ok false)
        known (ok req) never b n = absurd (never req refl)
        known (err x) never b n = cc
        known (crash k) never b n = cc
    round-takes a (line ∷ rest) e h =
        let left =
          (Keeps-continue (next_request host a).0 answer
              (λ req _. reads_not (record { lines = rest; fault = a.wire.input.fault }) req)).after
            (next_request host a).1 (next_request-takes a line rest e) in
        omega (arith, ap (λ i. length i.lines) left)

    round-Finishes : (a : LfsAction T F D) → Finishes round a (rounds round (suc (lines_left a)) a)
    round-Finishes a =
        rounds-Finishes round (λ b. Unit) lines_left
          (λ b _ more. (tt, round-takes b b.wire.input.lines refl more)) (suc (lines_left a)) a tt
          (omega arith)

  -- Where json.Unmarshal refuses an empty text, the loop of runUpload has finitely many rounds on
  -- every input: run_upload gives the result and the state of the loop of the code, whose last round
  -- stops it, fails, panics, or waits forever, and the fuel does not show.
  pub run_upload-Finishes :
      (subject : Descriptor) (a : LfsAction T F D)
      → RefusesEmpty host.json
      → Finishes (upload_round host subject) a (run_upload host subject a)
  unfolding run_upload upload_round
  run_upload-Finishes subject a refuses =
      round-Finishes (upload_request host subject)
        (λ i req. upload_request-InputIs host i subject req) refuses a

  -- Where json.Unmarshal refuses an empty text, the loop of runDownload has finitely many rounds on
  -- every input: run_download gives the result and the state of the loop of the code, whose last round
  -- stops it, fails, panics, or waits forever, and the fuel does not show.
  pub run_download-Finishes :
      (a : LfsAction T F D)
      → RefusesEmpty host.json
      → Finishes (download_round host) a (run_download host a)
  unfolding run_download download_round
  run_download-Finishes a refuses =
      round-Finishes (download_request host) (λ i req. download_request-InputIs host i req) refuses
        a
