-- ===== src/Protocol/RoundTrip.antt =====
-- Requests that are printed, split into fields and parsed again.
use mathlib.Core.Path.{subst}
use gnoci.Base.{
  ℕ, [], ◌∷◌, ◌++◌, ◌≡◌, ◌≢◌, refl, sym, ◌∙◌, ap, Bool, true, false, Text, text_eq, list_beq,
  All-append, fields, has_prefix, trim_prefix, is_space,
}
use gnoci.Outcome.{ok}
use gnoci.Protocol.Commands
use gnoci.Protocol.Push.{PushRequest, plus, parse_push_request, push_request_text}
use gnoci.Protocol.Words.{IsWord, Lacks, fields-word, fields-last, split-pair}

-- A name that can stand in a pair
pub record IsRefName (t : Text) : Type 0 where
  pub is_word : IsWord t
  pub no_colon : Lacks b':' t

-- A request that Git can send: a source that begins with a plus is read as a forced one.
pub record IsSendable (r : PushRequest) : Type 0 where
  pub cmd_is : r.cmd ≡ Commands.push
  pub src_name : IsRefName r.src
  pub remote_name : IsRefName r.remote
  pub plain : r.force ≡ false → has_prefix r.src plus ≡ false

pair-IsWord : (s t : Text) → IsRefName s → IsRefName t → IsWord (s ++ (b':' ∷ t))
unfolding is_space
pair-IsWord s t hs ht = All-append _ s (b':' ∷ t) hs.is_word (refl, ht.is_word)

push-IsWord : IsWord Commands.push
unfolding is_space
push-IsWord = (refl, (refl, (refl, (refl, tt))))

append-cons-ne-nil : (s t : Text) (c : ℕ) → s ++ (c ∷ t) ≢ []
append-cons-ne-nil [] t c e = cc
append-cons-ne-nil (x ∷ s) t c e = cc

forced_pair :
    (s t : Text)
    → IsRefName s
    → IsRefName t
    → fields (Commands.push ++ (b' ' ∷ (b'+' ∷ (s ++ (b':' ∷ t)))))
      ≡ Commands.push ∷ (b'+' ∷ (s ++ (b':' ∷ t))) ∷ []
unfolding is_space
forced_pair s t hs ht =
    fields-word Commands.push _ push-IsWord (λ e. cc)
    ∙ ap (◌∷◌ Commands.push) (fields-last _ (refl, pair-IsWord s t hs ht) (λ e. cc))

plain_pair :
    (s t : Text)
    → IsRefName s
    → IsRefName t
    → fields (Commands.push ++ (b' ' ∷ (s ++ (b':' ∷ t)))) ≡ Commands.push ∷ (s ++ (b':' ∷ t)) ∷ []
plain_pair s t hs ht =
    fields-word Commands.push _ push-IsWord (λ e. cc)
    ∙ ap (◌∷◌ Commands.push) (fields-last _ (pair-IsWord s t hs ht) (append-cons-ne-nil s t _))

abbrev request : Text → Bool → Text → Text → PushRequest
request c f s t = record { cmd = c; force = f; src = s; remote = t }

parse_request :
    (f : Bool) (s t : Text)
    → IsRefName s
    → IsRefName t
    → (f ≡ false → has_prefix s plus ≡ false)
    → parse_push_request (fields (push_request_text (request Commands.push f s t)))
      ≡ ok (request Commands.push f s t)
unfolding push_request_text parse_push_request trim_prefix list_beq
parse_request true s t hs ht h =
    rw (forced_pair s t hs ht)
      (rw (split-pair b':' (b'+' ∷ s) t (refl, hs.no_colon) ht.no_colon) refl)
parse_request false s t hs ht h =
    rw (plain_pair s t hs ht) (rw (split-pair b':' s t hs.no_colon ht.no_colon) (rw (h refl) refl))

-- Every push request that Git can send is read back from its printed form.
pub parse-push_request_text :
    (r : PushRequest) → IsSendable r → parse_push_request (fields (push_request_text r)) ≡ ok r
parse-push_request_text r h =
    subst
      (λ c.
        parse_push_request (fields (push_request_text (request c r.force r.src r.remote)))
        ≡ ok (request c r.force r.src r.remote))
      (sym h.cmd_is) (parse_request r.force r.src r.remote h.src_name h.remote_name h.plain)
