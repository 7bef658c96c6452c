-- ===== src/Model/Layers.antt =====
-- Reading the packfile layers (FetchLayer and FetchLayersReverse of internal/model/modeler.go).
use gnoci.Base.{List, [], ◌∷◌, map, Text, text_eq, ◌==◌, if◌then◌else◌}
use mathlib.Core.List.{reverse}
use gnoci.Outcome.{Result, err, sentinel, wrapf, layer_not_in_manifest, wrap}
use gnoci.Oci.{Descriptor}
use gnoci.Model.Session.{Outside, Session}

module _ {T F : Type 0} (out : Outside T F) where
  find_layer : List Descriptor → Text → T → Result Text
  find_layer [] dgst t = err (wrapf "%w: %s" (dgst ∷ []) (sentinel layer_not_in_manifest))
  find_layer (desc ∷ descs) dgst t =
      let rest = find_layer descs dgst t in
      if desc.digest == dgst then wrap "fetching layer: %w" [] (out.target.fetch t desc) else rest

  unfoldable pub fetch_layer : Text → Session T F → Result Text
  unfolding find_layer
  fetch_layer dgst s = find_layer s.model.man.layers dgst s.target

  -- What the iterator yields, from the last layer to the first
  unfoldable pub fetch_layers_reverse : Session T F → List (Result Text)
  fetch_layers_reverse s = map (out.target.fetch s.target) (reverse s.model.man.layers)
