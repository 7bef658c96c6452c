-- ===== src/Cmd/Options/Left.antt =====
-- The capabilities and option commands put no line back.
use gnoci.Base.{ℕ, [], ◌∷◌, Bool, true, false, Text, Option, none, some, text_eq, ◌==◌, atoi, ℤ}
use gnoci.Outcome.{
  Action, Result, ok, err, crash, Error, is, unsupported_request, wrapf, fail, wrapping, sentinel,
}
use gnoci.Outcome.Keeps.{
  Keeps, Keeps-attempt, Keeps-bind, Keeps-then, Keeps-lift, Keeps-if, Keeps-fail, Keeps-wrapping,
  Keeps-part,
}
use gnoci.Protocol.Options.{OptionRequest, verbosity_option, option_request_text}
use gnoci.Comms.{Communicator, write_option_response}
use gnoci.Comms.Consumes.{
  Left, receive_capabilities_request-Left, receive_option_request-Left,
  write_capabilities_response-Left, write_option_response-Left,
}
use gnoci.Cmd.Options.{
  Console, handle_capabilities, handle_option, set_option, verbosity, set_verbosity, respond,
  with_comm,
}

module _ (n : ℕ) (fault : Option Error) where
  pub handle_capabilities-Left : Keeps (Left n fault) handle_capabilities
  unfolding handle_capabilities
  handle_capabilities-Left =
      Keeps-then _ _ (Keeps-wrapping _ _ _ (receive_capabilities_request-Left n fault))
        (Keeps-wrapping _ _ _ (write_capabilities_response-Left n fault _))

  abbrev ConsoleLeft : Console → Type 0
  ConsoleLeft c = Left n fault c.comm

  with_comm-Left :
      {A : Type 0} (m : Action Communicator A)
      → Keeps (Left n fault) m
      → Keeps ConsoleLeft (with_comm m)
  with_comm-Left m k = Keeps-part _ _ (Left n fault) m k (λ c d h. h)

  set_verbosity-Left : (value : Text) (v : Option ℤ) → Keeps ConsoleLeft (set_verbosity value v)
  unfolding set_verbosity
  set_verbosity-Left value none = record { after = λ c h. h }
  set_verbosity-Left value (some v) = record { after = λ c h. h }

  set_option-Left : (req : OptionRequest) → Keeps ConsoleLeft (set_option req)
  unfolding set_option verbosity
  set_option-Left req =
      Keeps-if (req.opt == verbosity_option) (verbosity req.value)
        (fail (wrapf "%w: %s" (option_request_text req ∷ []) (sentinel unsupported_request)))
        (λ e. set_verbosity-Left req.value (atoi req.value)) (λ e. Keeps-fail _)

  answer-Left :
      (supported : Bool)
      → Keeps ConsoleLeft
          (with_comm (wrapping "writing option response: %w" [] (write_option_response supported)))
  answer-Left supported =
      with_comm-Left _ (Keeps-wrapping _ _ _ (write_option_response-Left n fault supported))

  respond-Left : (r : Result (Unit {0})) → Keeps ConsoleLeft (respond r)
  unfolding respond
  respond-Left (ok u) = answer-Left true
  respond-Left (err e) =
      Keeps-if (is unsupported_request e)
        (with_comm (wrapping "writing option response: %w" [] (write_option_response false)))
        (fail (wrapf "handling option: %w" [] e)) (λ _. answer-Left false) (λ _. Keeps-fail _)
  respond-Left (crash c) = Keeps-lift _

  pub handle_option-Left : Keeps ConsoleLeft handle_option
  unfolding handle_option
  handle_option-Left =
      Keeps-bind _ _ (with_comm-Left _ (Keeps-wrapping _ _ _ (receive_option_request-Left n fault)))
        λ req. Keeps-bind _ _ (Keeps-attempt _ (set_option-Left req)) λ done. respond-Left done
