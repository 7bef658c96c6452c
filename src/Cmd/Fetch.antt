-- ===== src/Cmd/Fetch.antt =====
-- The fetch command (internal/cmd/fetch.go).
pub mod Unpacked
use gnoci.Base.{[], Bool, Text, if◌then◌else◌}
use gnoci.Outcome.{
  Result, errorf, Action, pure, fail, lift, gets, wrapping, within, for_each, wrap, ◌>>=◌, ◌>>◌,
}
use gnoci.Comms.{Communicator, receive_fetch_batch, write_fetch_response}
use gnoci.Model.Session.{Outside, Session, fetch}
use gnoci.Model.Layers.{fetch_layers_reverse}

-- The storer of the local repository, with state `L`
pub record ObjectStore (L : Type 0) : Type 0 where
  pub is_storer : Bool
  -- packfile.UpdateObjectStorage
  pub update : Text → Action L (Unit {0})
  -- Close of a layer's reader
  pub close : Text → Result (Unit {0})

pub record Download (T F L : Type 0) : Type 0 where
  pub session : Session T F
  pub comm : Communicator
  pub objects : L

module _ {T F L : Type 0} where
  abbrev pub in_session : {A : Type 0} → Action (Session T F) A → Action (Download T F L) A
  in_session = within (λ d. d.session) (λ d s. record d { session = s })

  abbrev pub in_comm : {A : Type 0} → Action Communicator A → Action (Download T F L) A
  in_comm = within (λ d. d.comm) (λ d c. record d { comm = c })

  abbrev pub in_objects : {A : Type 0} → Action L A → Action (Download T F L) A
  in_objects = within (λ d. d.objects) (λ d o. record d { objects = o })

module _ {T F L : Type 0} (out : Outside T F) (objects : ObjectStore L) where
  -- One round of the loop over the layers
  unfoldable pub unpack_layer : Result Text → Action (Download T F L) (Unit {0})
  unpack_layer rc = do
    pack ← lift (wrap "fetching packfile: %w" [] rc)
    if objects.is_storer
        then pure tt
        else fail (errorf "repository storer is not a storer.Storer" [])
    wrapping "updating object storage with packfile: %w" [] (in_objects (objects.update pack))
    lift (wrap "closing packfile reader: %w" [] (objects.close pack))

  unfoldable pub handle_fetch : Action (Download T F L) (Unit {0})
  unfolding unpack_layer
  handle_fetch = do
    wrapping "fetching remote metadata: %w" [] (in_session (fetch out))
    wrapping "parsing fetch request batch: %w" [] (in_comm (receive_fetch_batch out.git))
    layers ← gets (λ d. fetch_layers_reverse out d.session)
    for_each layers unpack_layer
    wrapping "writing fetch response: %w" [] (in_comm write_fetch_response)
