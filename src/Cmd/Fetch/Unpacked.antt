-- ===== src/Cmd/Fetch/Unpacked.antt =====
-- What a fetch that succeeds has unpacked.
use mathlib.Core.Path.{subst}
use mathlib.Core.List.{reverse}
use gnoci.Base.{◌≡◌, refl, sym, ap, ◌∙◌, List, [], ◌∷◌, map, Bool, true, false, Text, if◌then◌else◌}
use gnoci.Outcome.{Result, ok, Error, Action, pure, fail, for_each, wrap-eq-ok, ◌>>=◌}
use gnoci.Outcome.Succeeds.{
  pairs, bind-succeeds, wrapping-succeeds, lift-succeeds, gets-succeeds, within-succeeds,
}
use gnoci.Oci.{Descriptor}
use gnoci.Model.Session.{Outside, Session, fetch}
use gnoci.Model.Layers.{fetch_layers_reverse}
use gnoci.Cmd.Fetch.{ObjectStore, Download, unpack_layer, handle_fetch}

-- A test that succeeds has changed nothing.
tested :
    {S : Type 0} (b : Bool) (e : Error) (s t : S) (x : Unit {0})
    → (if b then pure tt else fail e) s ≡ (ok x, t)
    → t ≡ s
unfolding pure fail
tested true e s t x h = sym (ap (λ q. q.1) h)
tested false e s t x h = cc

module _ {L : Type 0} (objects : ObjectStore L) where
  -- The packs go into the store one after the other.
  abbrev pub update_all : List Text → Action L (Unit {0})
  update_all packs = for_each packs objects.update

module _ {T F L : Type 0} (out : Outside T F) (objects : ObjectStore L) where
  unpacked_one :
      (rc : Result Text) (d e : Download T F L) (x : Unit {0})
      → unpack_layer out objects rc d ≡ (ok x, e)
      → (pack : Text) × ((rc ≡ ok pack) × (objects.update pack d.objects ≡ (ok tt, e.objects)))
  unfolding unpack_layer
  unpacked_one rc d e x h =
      let (pack, (d0, (got, h0))) = bind-succeeds _ _ d e x h in
      let (x1, (d1, (is_storer, h1))) = bind-succeeds _ _ d0 e x h0 in
      let (x2, (d2, (updated, h2))) = bind-succeeds _ _ d1 e x h1 in
      let (wrapped, at0) = lift-succeeds _ d d0 pack got in
      let at1 = tested _ _ d0 d1 x1 is_storer in
      let (done, at2) = within-succeeds _ _ _ d1 d2 x2 (wrapping-succeeds _ _ _ d1 d2 x2 updated) in
      let (_, at3) = lift-succeeds _ d2 e x h2 in
      (
        pack,
        (
          wrap-eq-ok _ _ rc wrapped,
          subst (λ q. objects.update pack q.objects ≡ (ok tt, e.objects)) (at1 ∙ at0)
              (pairs (ap (λ q. q.0) done) (sym (ap (λ q. q.objects) (at3 ∙ at2)))),
        ),
      )

  unpacked_all :
      (rcs : List (Result Text)) (d e : Download T F L) (x : Unit {0})
      → for_each rcs (unpack_layer out objects) d ≡ (ok x, e)
      → (packs : List Text) × ((rcs ≡ map ok packs)
          × (update_all objects packs d.objects ≡ (ok tt, e.objects)))
  unfolding for_each pure ◌>>=◌
  unpacked_all [] d e x h = ([], (refl, pairs refl (ap (λ q. q.1.objects) h)))
  unpacked_all (rc ∷ rcs) d e x h =
      let (x1, (d1, (first, h1))) =
        bind-succeeds (unpack_layer out objects rc) (λ y. for_each rcs (unpack_layer out objects)) d
          e x h in
      let (pack, (got, updated)) = unpacked_one rc d d1 x1 first in
      let (packs, (all_got, all_updated)) = unpacked_all rcs d1 e x h1 in
      (pack ∷ packs, (λ i. got i ∷ all_got i, rw updated all_updated))

  -- A fetch command that succeeds has fetched the manifest, has read every layer of it from the
  -- registry, and has put all of them into the local store, from the last layer to the first, each
  -- without an error.
  pub handle_fetch-unpacked :
      (d e : Download T F L)
      → handle_fetch out objects d ≡ (ok tt, e)
      → (desc : Descriptor) × ((s : Session T F) × ((packs : List Text) × ((fetch out d.session
                ≡ (ok desc, s))
              × ((map (out.target.fetch s.target) (reverse s.model.man.layers) ≡ map ok packs)
                  × (update_all objects packs d.objects ≡ (ok tt, e.objects))))))
  unfolding handle_fetch fetch_layers_reverse
  handle_fetch-unpacked d e h =
      let (desc, (d0, (fetched, h0))) = bind-succeeds _ _ d e tt h in
      let (reqs, (d1, (parsed, h1))) = bind-succeeds _ _ d0 e tt h0 in
      let (layers, (d2, (read, h2))) = bind-succeeds _ _ d1 e tt h1 in
      let (x3, (d3, (unpacked, h3))) = bind-succeeds _ _ d2 e tt h2 in
      let (done, at0) =
        within-succeeds _ _ _ d d0 desc (wrapping-succeeds _ _ _ d d0 desc fetched) in
      let (_, at1) = within-succeeds _ _ _ d0 d1 reqs (wrapping-succeeds _ _ _ d0 d1 reqs parsed) in
      let (layers_are, at2) = gets-succeeds _ d1 d2 layers read in
      let (_, at3) = within-succeeds _ _ _ d3 e tt (wrapping-succeeds _ _ _ d3 e tt h3) in
      let (packs, (all_got, all_updated)) = unpacked_all layers d2 d3 x3 unpacked in
      let same_session : d1.session ≡ (fetch out d.session).1 =
        ap (λ q. q.session) at1 ∙ ap (λ q. q.session) at0 in
      let same_objects : d2.objects ≡ d.objects =
        ap (λ q. q.objects) at2 ∙ (ap (λ q. q.objects) at1 ∙ ap (λ q. q.objects) at0) in
      let all_layers = sym (layers_are ∙ ap (fetch_layers_reverse out) same_session) ∙ all_got in
      let all_taken =
        subst (λ o. update_all objects packs o ≡ (ok tt, d3.objects)) same_objects all_updated
        ∙ pairs refl (sym (ap (λ q. q.objects) at3)) in
      (desc, ((fetch out d.session).1, (packs, (done, (all_layers, all_taken)))))
