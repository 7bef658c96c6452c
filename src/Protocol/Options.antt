-- ===== src/Protocol/Options.antt =====
-- The option request (pkg/protocol/git/options.go).
use gnoci.Base.{
  List, [], ◌∷◌, ◌++◌, none, some, Bool, true, false, ◌&&◌, Text, text, text_eq, ◌==◌, atoi,
  if◌then◌else◌,
}
use gnoci.Outcome.{Result, ok, err, Error, sentinel, errorf, wrapf, bad_request, unexpected_request}
use gnoci.Protocol.Commands
use gnoci.Protocol.Commands.{Command, show_fields}

abbrev pub OptionName : Type 0
OptionName = Text

abbrev pub verbosity_option : OptionName
verbosity_option = text "verbosity"

abbrev pub option_supported : Text
option_supported = text "ok"

abbrev pub option_not_supported : Text
option_not_supported = text "unsupported"

pub record OptionRequest : Type 0 where
  pub cmd : Command
  pub opt : OptionName
  pub value : Text

-- The error of strconv.Atoi
abbrev pub atoi_error : Text → Error
atoi_error value = errorf "strconv.Atoi: parsing \"%s\": invalid number" (value ∷ [])

abbrev pub not_number : Text → Bool
not_number v = elim (atoi v) [ none ↦ true | some n ↦ false ]

unfoldable pub parse_option_request : List Text → Result OptionRequest
parse_option_request (cmd ∷ opt ∷ val ∷ _) =
    if cmd == Commands.options
    then (if opt == verbosity_option && not_number val
        then err (wrapf "unable to convert verbosity value to int: %w" [] (atoi_error val))
        else if val == []
        then err (wrapf "%w: missing value for option %s" (opt ∷ []) (sentinel bad_request))
        else ok (record { cmd = cmd; opt = opt; value = val }))
    else err
        (wrapf "%w: got %s, want %s" (cmd ∷ Commands.options ∷ []) (sentinel unexpected_request))
parse_option_request fields = err (
    wrapf "%w: invalid fields for options request: got %v" (show_fields fields ∷ [])
      (sentinel bad_request))

unfoldable pub option_request_text : OptionRequest → Text
option_request_text r = r.cmd ++ (b' ' ∷ (r.opt ++ (b' ' ∷ r.value)))
