-- ===== src/Cmd/Options/Answers.antt =====
-- What HandleOption answers to an option request that parses.
use gnoci.Base.{
  ℕ, zero, suc, ◌<◌, pos, negsuc, ◌≢◌, text, List, [], ◌∷◌, ◌++◌, ◌≡◌, refl, true, Text, text_eq,
  ◌==◌, ℤ, none, some, atoi, arith, Option-cases, Bool-cases, inl, inr,
}
use gnoci.Outcome.{ok, ◌>>=◌}
use gnoci.Protocol.Options.{OptionRequest, parse_option_request, verbosity_option}
use gnoci.Comms.{receive_option_request, previous_or_next, write_option_response, print_line}
use gnoci.Cmd.Options.{
  Level, level_error, level_warn, level_info, level_debug, Console, handle_option, set_option,
  verbosity, set_verbosity, respond, verbosity_level,
}

-- The value of a verbosity request is a number when the request parses.
parse_option-atoi :
    (fs : List Text) (req : OptionRequest)
    → parse_option_request fs ≡ ok req
    → (req.opt == verbosity_option) ≡ true
    → (n : ℤ) × (atoi req.value ≡ some n)
unfolding parse_option_request
parse_option-atoi [] req h v = ground arith
parse_option-atoi (cmd ∷ []) req h v = ground arith
parse_option-atoi (cmd ∷ opt ∷ []) req h v = ground arith
parse_option-atoi (cmd ∷ opt ∷ val ∷ rest) req h v = elim (Option-cases (atoi req.value)) [
  | inr x ↦ x
  | inl e ↦ absurd (ground (arith, e, h, v))
]

-- The console after a line was written, with the request forgotten
abbrev pub replied : Console → Text → Console
replied c line = record c {
  comm = record c.comm {
    out = record c.comm.out { written = c.comm.out.written ++ (line ++ (b'\n' ∷ [])) };
    previous = [];
  };
}

-- The level of the log that a verbosity asks for
pub data IsLevel : ℤ → Level → Type 0 where
  below_zero : {n : ℕ} → IsLevel (negsuc n) level_error
  at_zero : IsLevel (pos 0) level_error
  at_one : IsLevel (pos 1) level_warn
  at_two : IsLevel (pos 2) level_info
  above_two : {n : ℕ} → 2 < n → IsLevel (pos n) level_debug

verbosity_level-IsLevel : (n : ℤ) → IsLevel n (verbosity_level n)
unfolding verbosity_level
verbosity_level-IsLevel (negsuc n) = below_zero
verbosity_level-IsLevel (pos zero) = at_zero
verbosity_level-IsLevel (pos (suc zero)) = at_one
verbosity_level-IsLevel (pos (suc (suc zero))) = at_two
verbosity_level-IsLevel (pos (suc (suc (suc n)))) = above_two (omega arith)

-- When the fields that LookAhead read are an option request that parses and the output can be
-- written to, HandleOption succeeds and forgets the request: if the option is "verbosity", its value
-- is a number, and it answers "ok" and sets the level of the log, which is that of errors up to zero,
-- of warnings for one, of information for two and of debugging above; otherwise it answers
-- "unsupported" and leaves the level.
pub handle_option-replied :
    (c : Console) (f : Text) (fs : List Text) (req : OptionRequest)
    → c.comm.previous ≡ f ∷ fs
    → parse_option_request (f ∷ fs) ≡ ok req
    → c.comm.out.fault ≡ none
    → (req.opt ≡ text "verbosity"
        → (n : ℤ) × (level : Level) × (atoi req.value ≡ some n)
          × IsLevel n level
          × (handle_option c ≡ (ok tt, record (replied c (text "ok")) { level = level })))
      × (req.opt ≢ text "verbosity" → handle_option c ≡ (ok tt, replied c (text "unsupported")))
unfolding handle_option receive_option_request previous_or_next set_option verbosity set_verbosity
    respond write_option_response print_line ◌>>=◌
handle_option-replied c f fs req p h w = (
  λ is_verbosity.
      let v = (text_eq.beq_iff req.opt (text "verbosity")).1 is_verbosity in
      let (n, e) = parse_option-atoi (f ∷ fs) req h v in
      (n, verbosity_level n, e, verbosity_level-IsLevel n, rw (p, h, v, e, w) refl),
  λ other. elim (Bool-cases (req.opt == text "verbosity")) [
    | inl v ↦ absurd (other ((text_eq.beq_iff req.opt (text "verbosity")).0 v))
    | inr v ↦ rw (p, h, v, w) refl
  ],
)
