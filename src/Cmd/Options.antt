-- ===== src/Cmd/Options.antt =====
-- The capabilities and option commands (internal/cmd/capabilities.go, internal/cmd/options.go).
pub mod Answers
pub mod Left
use gnoci.Base.{
  zero, suc, ℤ, pos, negsuc, List, [], ◌∷◌, Option, none, some, true, false, Text, text_eq, ◌==◌,
  atoi, if◌then◌else◌,
}
use gnoci.Outcome.{
  Result, ok, err, crash, sentinel, wrapf, is, unsupported_request, Action, fail, lift, wrapping,
  attempt, within, ◌>>=◌, ◌>>◌,
}
use gnoci.Protocol.Capabilities.{Capability, capability_option, capability_fetch, capability_push}
use gnoci.Protocol.Options.{OptionRequest, verbosity_option, option_request_text, atoi_error}
use gnoci.Comms.{
  Communicator, receive_capabilities_request, write_capabilities_response, receive_option_request,
  write_option_response,
}

abbrev pub supported_capabilities : List Capability
supported_capabilities = capability_option ∷ capability_fetch ∷ capability_push ∷ []

unfoldable pub handle_capabilities : Action Communicator (Unit {0})
handle_capabilities = do
  wrapping "parsing capabilities request: %w" [] receive_capabilities_request
  wrapping "writing capabilities: %w" [] (write_capabilities_response supported_capabilities)

-- The level of the log, which slog keeps
pub data Level : Type 0 where
  level_error level_warn level_info level_debug : Level

unfoldable pub verbosity_level : ℤ → Level
verbosity_level (negsuc n) = level_error
verbosity_level (pos zero) = level_error
verbosity_level (pos (suc zero)) = level_warn
verbosity_level (pos (suc (suc zero))) = level_info
verbosity_level (pos (suc (suc (suc n)))) = level_debug

-- The process as these commands see it
pub record Console : Type 0 where
  pub comm : Communicator
  pub level : Level

set_verbosity : Text → Option ℤ → Action Console (Unit {0})
set_verbosity value none c =
    (err (wrapf "converting verbosity value to int: %w" [] (atoi_error value)), c)
set_verbosity value (some n) c = (ok tt, record c { level = verbosity_level n })

unfoldable pub verbosity : Text → Action Console (Unit {0})
unfolding set_verbosity
verbosity value = set_verbosity value (atoi value)

unfoldable pub set_option : OptionRequest → Action Console (Unit {0})
unfolding verbosity
set_option req =
    if req.opt == verbosity_option
    then verbosity req.value
    else fail (wrapf "%w: %s" (option_request_text req ∷ []) (sentinel unsupported_request))

abbrev pub with_comm : {A : Type 0} → Action Communicator A → Action Console A
with_comm = within (λ c. c.comm) (λ c d. record c { comm = d })

respond : Result (Unit {0}) → Action Console (Unit {0})
respond (ok u) = with_comm (wrapping "writing option response: %w" [] (write_option_response true))
respond (err e) =
    if is unsupported_request e
    then with_comm (wrapping "writing option response: %w" [] (write_option_response false))
    else fail (wrapf "handling option: %w" [] e)
respond (crash k) = lift (crash k)

unfoldable pub handle_option : Action Console (Unit {0})
unfolding respond
handle_option = do
  req ← with_comm (wrapping "parsing option request: %w" [] receive_option_request)
  done ← attempt (set_option req)
  respond done
