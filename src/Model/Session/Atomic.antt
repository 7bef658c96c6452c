-- ===== src/Model/Session/Atomic.antt =====
-- Push of the modeler changes what the remote reference resolves to in its last step only.
use gnoci.Base.{List, [], ◌≡◌, refl, ◌∙◌, ◌⊎◌, inl, inr, true, Text, All}
use gnoci.Outcome.{
  Action, Error, Crash, wrapf, Result, ok, err, crash, is_ok, continue, wrap, ◌>>=◌, ◌>>◌, pure,
}
use gnoci.Outcome.Keeps.{Keeps, Keeps-lift, Keeps-gets}
use gnoci.Oci.{Descriptor, Target, PackOptions}
use gnoci.Model.Session.Pushed.{Unmoved, push_packs-Keeps, run_updates-Keeps, push_metadata-Keeps}
use gnoci.Model.Session.{Outside, Session, tag_manifest, push}

-- What the code relies on in a registry for one tag: a push of content or of a manifest by its digest
-- leaves what the tag resolves to, and Tag, if it succeeds, sets it to the descriptor.
pub record IsRegistry {T : Type 0} (target : Target T) (ref : Text) : Type 0 where
  pub push_keeps :
      (d : Descriptor) (raw : Text) (t : T)
      → target.resolve (target.push d raw t).1 ref ≡ target.resolve t ref
  pub push_bytes_keeps :
      (media raw : Text) (t : T)
      → target.resolve (target.push_bytes media raw t).1 ref ≡ target.resolve t ref
  pub pack_manifest_keeps :
      (media : Text) (o : PackOptions) (t : T)
      → target.resolve (target.pack_manifest media o t).1 ref ≡ target.resolve t ref
  pub tag_sets :
      (d : Descriptor) (t : T)
      → is_ok (target.tag d ref t).0 ≡ true
      → target.resolve (target.tag d ref t).1 ref ≡ ok d

module _ {T F : Type 0} (out : Outside T F) where
  -- The modeler's reference, and what it resolves to
  abbrev pub Resolves : Text → Result Descriptor → Session T F → Type 0
  Resolves ref was s = (s.model.ref ≡ ref) × (out.target.resolve s.target ref ≡ was)

  -- The registry is as a call of Tag left it that failed, and this failure is the result.
  pub data TagFailed (ref : Text) (s : Session T F) : Result Descriptor → Type 0 where
    failed :
        {d : Descriptor} {t : T} {x : Error}
        → out.target.tag d ref t ≡ (err x, s.target)
        → TagFailed ref s (err (wrapf "tagging base manifest: %w" [] x))
    crashed :
        {d : Descriptor} {t : T} {k : Crash}
        → out.target.tag d ref t ≡ (crash k, s.target)
        → TagFailed ref s (crash k)

  -- How a push may end
  abbrev pub Ended : Text → Result Descriptor → Result Descriptor × Session T F → Type 0
  Ended ref was (ok desc, s) = out.target.resolve s.target ref ≡ ok desc
  Ended ref was (r, s) = (out.target.resolve s.target ref ≡ was) ⊎ TagFailed ref s r

  record Commits (ref : Text) (was : Result Descriptor) (m : Action (Session T F) Descriptor)
      : Type 0 where
    ends : (s : Session T F) → Resolves ref was s → Ended ref was (m s)

  Commits-continue :
      {A : Type 0} (ref : Text) (was : Result Descriptor) (r : Result A)
      (f : A → Action (Session T F) Descriptor) (s : Session T F)
      → Resolves ref was s
      → ((a : A) → Commits ref was (f a))
      → Ended ref was (continue r f s)
  Commits-continue ref was (ok a) f s h k = (k a).ends s h
  Commits-continue ref was (err e) f s h k = inl h.1
  Commits-continue ref was (crash c) f s h k = inl h.1

  Commits-bind :
      {A : Type 0} (ref : Text) (was : Result Descriptor) (m : Action (Session T F) A)
      (f : A → Action (Session T F) Descriptor)
      → Keeps (Resolves ref was) m
      → ((a : A) → Commits ref was (f a))
      → Commits ref was (m >>= f)
  unfolding ◌>>=◌
  Commits-bind ref was m f km kf = record {
    ends = λ s h. Commits-continue ref was (m s).0 f (m s).1 (km.after s h) kf;
  }

  Resolves-Unmoved :
      (ref : Text) (was : Result Descriptor)
      → IsRegistry out.target ref
      → Unmoved out (Resolves ref was)
  Resolves-Unmoved ref was lawful = record {
    pushed = λ s d raw h. (h.0, lawful.push_keeps d raw s.target ∙ h.1);
    bytes_pushed = λ s media raw h. (h.0, lawful.push_bytes_keeps media raw s.target ∙ h.1);
    packed = λ s media o h. (h.0, lawful.pack_manifest_keeps media o s.target ∙ h.1);
  }

  -- Each of the updates keeps the reference, and that it resolves to this.
  abbrev pub Harmless :
      Text → Result Descriptor → List (Descriptor → Action (Session T F) (Unit {0})) → Type 0
  Harmless ref was updates = All (λ u. (d : Descriptor) → Keeps (Resolves ref was) (u d)) updates

  tagged-Ended :
      (ref : Text) (was : Result Descriptor) (desc : Descriptor) (r : Result (Unit {0}))
      (s : Session T F) (t : T)
      → out.target.tag desc ref t ≡ (r, s.target)
      → (is_ok r ≡ true → out.target.resolve s.target ref ≡ ok desc)
      → Ended ref was (continue (wrap "tagging base manifest: %w" [] r) (λ _. pure desc) s)
  unfolding pure
  tagged-Ended ref was desc (ok u) s t call done = done refl
  tagged-Ended ref was desc (err e) s t call done = inr (failed {d = desc} {t = t} {x = e} call)
  tagged-Ended ref was desc (crash c) s t call done = inr (crashed {d = desc} {t = t} {k = c} call)

  tag-Commits :
      (ref : Text) (was : Result Descriptor) (desc : Descriptor)
      → IsRegistry out.target ref
      → Commits ref was (tag_manifest out desc >> pure desc)
  unfolding tag_manifest ◌>>=◌
  tag-Commits ref was desc lawful = record {
    ends = λ s h. rw h.0 (
        tagged-Ended ref was desc (out.target.tag desc ref s.target).0
          (record s {
            model = record s.model { ref = ref };
            target = (out.target.tag desc ref s.target).1;
          })
          s.target refl (lawful.tag_sets desc s.target));
  }

  -- Push is atomic for the readers of its tag, in a registry where pushes of content and of manifests
  -- leave what this tag resolves to and a Tag that succeeds sets it, and with updates that leave the
  -- modeler's reference and what the tag resolved to before: if Push returns a descriptor then the tag
  -- resolves to exactly that one; if it fails at any step but Tag, the tag resolves to what it did
  -- before; and else its error is the one of Tag, wrapped, and the registry is as that call left it.
  pub push-Ended :
      (updates : List (Descriptor → Action (Session T F) (Unit {0}))) (s : Session T F)
      → IsRegistry out.target s.model.ref
      → Harmless s.model.ref (out.target.resolve s.target s.model.ref) updates
      → Ended s.model.ref (out.target.resolve s.target s.model.ref) (push out updates s)
  unfolding push
  push-Ended updates s lawful h =
      (steps s.model.ref (out.target.resolve s.target s.model.ref) lawful h).ends s (refl, refl)
    where
      steps :
          (ref : Text) (was : Result Descriptor)
          → IsRegistry out.target ref
          → Harmless ref was updates
          → Commits ref was (push out updates)
      steps ref was lawful harmless = Commits-bind _ _ _ _ (Keeps-gets _) λ packs.
          Commits-bind _ _ _ _ (push_packs-Keeps out _ (Resolves-Unmoved ref was lawful) packs)
            λ errs. Commits-bind _ _ _ _ (Keeps-lift _) λ u.
              Commits-bind _ _ _ _ (push_metadata-Keeps out _ (Resolves-Unmoved ref was lawful))
                λ desc.
                  Commits-bind _ _ _ _
                    (run_updates-Keeps out _ (Resolves-Unmoved ref was lawful) updates desc
                      harmless)
                    λ errs2.
                      Commits-bind _ _ _ _ (Keeps-lift _) λ v. tag-Commits ref was desc lawful
