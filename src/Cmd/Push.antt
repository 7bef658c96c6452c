-- ===== src/Cmd/Push.antt =====
-- The push command (HandlePush and createPack of internal/cmd/push.go).
pub mod Placed
pub mod Done
pub mod Pushed
pub mod Fetched
pub mod Listed
pub mod Stored
use gnoci.Base.{List, [], ◌∷◌, ◌++◌, Bool, true, false, not, Text, text, text_eq, if◌then◌else◌}
use gnoci.Base.Dict.{Dict}
use gnoci.Outcome.{
  Result, ok, err, crash, errorf, wrapf, is, unsupported_reference_type, Action, pure, fail, lift,
  gets, asks, wrapping, attempt, within, bind, wrap, ◌>>=◌, ◌>>◌,
}
use gnoci.Plumbing.{Hash, Repository}
use gnoci.Oci.{ReferenceInfo, Descriptor}
use gnoci.Protocol.Push.{PushRequest}
use gnoci.Comms.{Communicator, receive_push_batch, write_push_response}
use gnoci.Model.{head_refs}
use gnoci.Model.Session.{Outside, Session, with_files, add_pack, push}
use gnoci.Model.Lfs.{update_lfs_referrer}
use gnoci.Cmd.Compare.{Plan, compare_refs, reachable_objs}

-- The temporary repository in which go-git writes the packfile, and the file system under it. The
-- state is that of the file store, which reads the packfile afterwards.
pub record Packer (F : Type 0) : Type 0 where
  pub make_temp : Action F Text
  pub remove_all : Text → Action F (Unit {0})
  pub init_repo : Text → Action F (Unit {0})
  pub is_packfile_writer : Bool
  pub packfile_writer : Text → Action F (Unit {0})
  pub encode : Text → List Hash → Bool → Action F Hash
  pub absolute : Text → Result Text

-- The two objects that a command works on
pub record Link (T F : Type 0) : Type 0 where
  pub session : Session T F
  pub comm : Communicator

module _ {T F : Type 0} where
  abbrev pub with_session : {A : Type 0} → Action (Session T F) A → Action (Link T F) A
  with_session = within (λ l. l.session) (λ l s. record l { session = s })

  abbrev pub with_comm : {A : Type 0} → Action Communicator A → Action (Link T F) A
  with_comm = within (λ l. l.comm) (λ l c. record l { comm = c })

is_empty : Dict ReferenceInfo → Bool
is_empty [] = true
is_empty (ref ∷ refs) = false

module _ {T F : Type 0} (out : Outside T F) (packer : Packer F) (repo : Repository) where
  unfoldable pub create_pack : Text → List Hash → Bool → Action F Hash
  create_pack tmp hashes thin =
      if packer.is_packfile_writer
      then (do
        wrapping "initializing packfile writer: %w" [] (packer.packfile_writer tmp)
        wrapping "encoding packfile: %w" [] (packer.encode tmp hashes thin))
      else fail (errorf "repository storer is not a storer.PackfileWriter" [])

  abbrev pack_path : Text → Hash → Text
  pack_path tmp h =
      tmp ++ (text "/.git/objects/pack/pack-" ++ (out.git.hash_string h ++ text ".pack"))

  -- compareRefs on the modeler of the session, with the commits and references for the packfile
  -- and the responses
  unfoldable pub plan_push : List PushRequest → Action (Session T F) Plan
  plan_push reqs s =
      let (r, plan) = compare_refs out.git repo reqs s.model in
      (bind r (λ u. ok plan), record s { model = plan.comparer.remote })

  -- An error about an unsupported reference is logged only.
  unfoldable pub tolerated : Result Descriptor → Result (Unit {0})
  tolerated (ok d) = ok tt
  tolerated (err e) =
      if is unsupported_reference_type e
      then ok tt
      else err (wrapf "adding packfile to OCI data model: %w" [] e)
  tolerated (crash k) = crash k

  -- The deferred removal of the temporary directory; its error is logged only.
  pub removing : {A : Type 0} → Text → Action (Session T F) A → Action (Session T F) A
  removing tmp m s = let (r, t) = m s in let (u, v) = with_files (packer.remove_all tmp) t in (r, v)

  -- The body of HandlePush between the two uses of the communicator
  unfoldable pub push_refs : Plan → Action (Session T F) (Unit {0})
  unfolding create_pack tolerated is_empty removing
  push_refs plan = do
    objs ← asks (λ s.
        wrap "resolving reachable objects not already in remote: %w" []
          (reachable_objs out.git repo s.model plan.new_commit_tips))
    tmp ← wrapping "initializing temp directory: %w" [] (with_files packer.make_temp)
    removing tmp (do
      wrapping "initializing temp repository for packfile storage: %w" []
          (with_files (packer.init_repo tmp))
      thin ← gets (λ s. not (is_empty (head_refs s.model)))
      pack_hash ← wrapping "creating packfile: %w" [] (with_files (create_pack tmp objs thin))
      path ←
          lift (wrap "resolving absolute path: %w" [] (packer.absolute (pack_path tmp pack_hash)))
      added ← attempt (add_pack out path plan.refs_in_new_pack)
      lift (tolerated added)
      wrapping "pushing to remote: %w" [] (push out (update_lfs_referrer out ∷ []))
      pure tt)

  -- HandlePush. The assertion that the modeler is an LFS modeler holds for `model`.
  unfoldable pub handle_push : Action (Link T F) (Unit {0})
  unfolding plan_push push_refs
  handle_push = do
    reqs ← wrapping "parsing push request batch: %w" [] (with_comm receive_push_batch)
    plan ← with_session (plan_push reqs)
    with_session (push_refs plan)
    wrapping "writing push response: %w" [] (with_comm (write_push_response plan.results))
