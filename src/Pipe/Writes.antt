-- ===== src/Pipe/Writes.antt =====
-- A loop that writes one line for each entry of a list.
use gnoci.Base.{◌≡◌, ◌∙◌, ap, List, [], ◌∷◌, Text, String, map}
use gnoci.Outcome.{ok, Action, for_each, pure, wrapping, ◌>>=◌}

-- `write` puts a line out in the states of `Takes`; `put` is the state behind some lines.
pub record IsLineWriter {S : Type 0} (write : Text → Action S (Unit {0})) (Takes : S → Type 0)
    (put : List Text → S → S) : Type 0 where
  pub writes : (t : Text) (s : S) → Takes s → write t s ≡ (ok tt, put (t ∷ []) s)
  pub takes_more : (t : Text) (s : S) → Takes s → Takes (put (t ∷ []) s)
  pub put_none : (s : S) → put [] s ≡ s
  pub put_more : (t : Text) (ts : List Text) (s : S) → put ts (put (t ∷ []) s) ≡ put (t ∷ ts) s

module _ {S A : Type 0} {write : Text → Action S (Unit {0})} {Takes : S → Type 0}
    {put : List Text → S → S} (w : IsLineWriter write Takes put) (format : String)
    (args : A → List Text) (line : A → Text) where
  pub each-put :
      (xs : List A) (s : S)
      → Takes s
      → for_each xs (λ x. wrapping format (args x) (write (line x))) s
        ≡ (ok tt, put (map line xs) s)
  unfolding for_each pure wrapping ◌>>=◌
  each-put [] s h = rw (w.put_none s)
  each-put (x ∷ xs) s h = rw (w.writes (line x) s h) (
      each-put xs (put (line x ∷ []) s) (w.takes_more (line x) s h)
      ∙ ap (λ q. (ok tt, q)) (w.put_more (line x) (map line xs) s))
