-- ===== src/Actions/Git/Left.antt =====
-- The commands put no line of the input back.
use gnoci.Base.{ℕ, [], true, false, Text, Option, none, some, text_eq, ◌==◌, Bool-cases, inl, inr}
use gnoci.Outcome.{
  Action, Result, ok, err, crash, Error, errorf, is, empty_request, end_of_input, pure, fail,
}
use gnoci.Outcome.Keeps.{
  Keeps, Keeps-bind, Keeps-then, Keeps-lift, Keeps-pure, Keeps-if, Keeps-fail, Keeps-beside,
  Keeps-wrapping, Keeps-for_each, Keeps-part, Keeps-gets,
}
use gnoci.Plumbing.{Repository}
use gnoci.Comms.{Communicator}
use gnoci.Comms.Consumes.{
  Left, receive_list_request-Left, receive_push_batch-Left, receive_fetch_batch-Left,
  write_list_response-Left, write_push_response-Left, write_fetch_response-Left,
}
use gnoci.Model.{Modeler}
use gnoci.Model.Session.{Session}
use gnoci.Protocol.Commands
use gnoci.Protocol.Commands.{Command}
use gnoci.Cmd.Options.Left.{handle_capabilities-Left, handle_option-Left}
use gnoci.Cmd.Lists.{handle_list}
use gnoci.Cmd.Push.{handle_push}
use gnoci.Cmd.Fetch.{handle_fetch, unpack_layer}
use gnoci.Actions.Git.{
  GitAction, Host, at_comm, at_session, opened, open_once, local_repo, list_repo, run_list,
  run_push, run_fetch, run_command, dispatch,
}

handle_list-Left :
    (n : ℕ) (fault : Option Error) (local : Option Repository) (m : Modeler)
    → Keeps (Left n fault) (handle_list local m)
unfolding handle_list
handle_list-Left n fault local m =
    Keeps-bind _ _ (Keeps-wrapping _ _ _ (receive_list_request-Left n fault))
      λ req. Keeps-wrapping _ _ _ (write_list_response-Left n fault _)

module _ {T F L : Type 0} (host : Host T F L) (n : ℕ) (fault : Option Error) where
  abbrev pub InputLeft : GitAction T F L → Type 0
  InputLeft a = Left n fault a.console.comm

  handle_push-Left :
      (repo : Repository) → Keeps (λ l. Left n fault l.comm) (handle_push host.out host.packer repo)
  unfolding handle_push
  handle_push-Left repo =
      Keeps-bind _ _
        (Keeps-wrapping _ _ _
          (Keeps-part _ _ (Left n fault) _ (receive_push_batch-Left n fault) (λ l c h. h)))
        λ reqs. Keeps-bind _ _ (Keeps-beside _ _ (λ l. Left n fault l.comm) _ (λ l s h. h)) λ plan.
          Keeps-then _ _ (Keeps-beside _ _ (λ l. Left n fault l.comm) _ (λ l s h. h)) (
            Keeps-wrapping _ _ _
              (Keeps-part _ _ (Left n fault) _ (write_push_response-Left n fault _) (λ l c h. h)))

  unpack_layer-Left :
      (rc : Result Text) → Keeps (λ d. Left n fault d.comm) (unpack_layer host.out host.objects rc)
  unfolding unpack_layer
  unpack_layer-Left rc = Keeps-bind _ _ (Keeps-lift _) λ pack.
      Keeps-then _ _
        (Keeps-if host.objects.is_storer (pure tt)
          (fail (errorf "repository storer is not a storer.Storer" [])) (λ e. Keeps-pure tt)
          (λ e. Keeps-fail _))
        (Keeps-then _ _
          (Keeps-wrapping _ _ _ (Keeps-beside _ _ (λ d. Left n fault d.comm) _ (λ d o h. h)))
          (Keeps-lift _))

  handle_fetch-Left : Keeps (λ d. Left n fault d.comm) (handle_fetch host.out host.objects)
  unfolding handle_fetch
  handle_fetch-Left =
      Keeps-then _ _
        (Keeps-wrapping _ _ _ (Keeps-beside _ _ (λ d. Left n fault d.comm) _ (λ d s h. h)))
        (Keeps-then _ _
          (Keeps-wrapping _ _ _
            (Keeps-part _ _ (Left n fault) _ (receive_fetch_batch-Left n fault _) (λ d c h. h)))
          (Keeps-bind _ _ (Keeps-gets _) λ layers.
            Keeps-then _ _ (Keeps-for_each layers _ unpack_layer-Left) (
              Keeps-wrapping _ _ _ (
                Keeps-part _ _ (Left n fault) _ (write_fetch_response-Left n fault) (λ d c h. h)))))

  at_comm-Left :
      {A : Type 0} (m : Action Communicator A)
      → Keeps (Left n fault) m
      → Keeps InputLeft (at_comm m)
  at_comm-Left m k =
      Keeps-part _ _ (λ c. Left n fault c.comm) _ (Keeps-part _ _ (Left n fault) m k (λ c d h. h))
        (λ a c h. h)

  at_session-Left : {A : Type 0} (m : Action (Session T F) A) → Keeps InputLeft (at_session m)
  at_session-Left m = Keeps-beside _ _ InputLeft m (λ a s h. h)

  opened-Left : (r : Result Repository) → Keeps InputLeft (opened host r)
  unfolding opened
  opened-Left (ok r) = record { after = λ a h. h }
  opened-Left (err e) = record { after = λ a h. h }
  opened-Left (crash c) = record { after = λ a h. h }

  local_repo-Left : Keeps InputLeft (local_repo host)
  unfolding local_repo open_once
  local_repo-Left = record { after = λ a h. known a.local a h }
    where
      known :
          (local : Option Repository)
          → (a : GitAction T F L) → InputLeft a
          → InputLeft (open_once host local a).1
      known (some r) a h = h
      known none a h = elim (Bool-cases (a.git_dir == [])) [
        | inl e ↦ rw e h
        | inr e ↦ rw e ((opened-Left (host.plain_open a.git_dir)).after a h)
      ]

  list_repo-Left : Keeps InputLeft (list_repo host)
  unfolding list_repo
  list_repo-Left = record {
    after = λ a h. elim (Bool-cases (a.git_dir == [])) [
      | inl e ↦ rw e h
      | inr e ↦ rw e ((Keeps-bind _ _ local_repo-Left λ r. Keeps-pure (some r)).after a h)
    ];
  }

  run_list-Left : Keeps InputLeft (run_list host)
  unfolding run_list
  run_list-Left = Keeps-bind _ _ list_repo-Left λ local. Keeps-then _ _ (at_session-Left _) (
      Keeps-wrapping _ _ _ (record {
        after = λ a h. (at_comm-Left _ (handle_list-Left n fault local a.session.model)).after a h;
      }))

  run_push-Left : Keeps InputLeft (run_push host)
  unfolding run_push
  run_push-Left = Keeps-bind _ _ local_repo-Left λ local. Keeps-then _ _ (at_session-Left _) (
      Keeps-wrapping _ _ _
        (Keeps-part _ _ (λ l. Left n fault l.comm) _ (handle_push-Left local) (λ a l h. h)))

  run_fetch-Left : Keeps InputLeft (run_fetch host)
  unfolding run_fetch
  run_fetch-Left = Keeps-then _ _ local_repo-Left (
      Keeps-wrapping _ _ _
        (Keeps-part _ _ (λ d. Left n fault d.comm) _ handle_fetch-Left (λ a d h. h)))

  run_command-Left : (c : Command) → Keeps InputLeft (run_command host c)
  unfolding run_command
  run_command-Left c =
      Keeps-if (c == Commands.capabilities) _ _
        (λ _. Keeps-wrapping _ _ _ (
          Keeps-part _ _ (λ x. Left n fault x.comm) _
            (Keeps-part _ _ (Left n fault) _ (handle_capabilities-Left n fault) (λ x d h. h))
            (λ a x h. h)))
        λ _.
          Keeps-if (c == Commands.options) _ _
            (λ _. Keeps-wrapping _ _ _ (
              Keeps-part _ _ (λ x. Left n fault x.comm) _ (handle_option-Left n fault)
                (λ a x h. h)))
            λ _.
              Keeps-if (c == Commands.list) _ _ (λ _. Keeps-wrapping _ _ _ run_list-Left)
                λ _.
                  Keeps-if (c == Commands.push) _ _ (λ _. Keeps-wrapping _ _ _ run_push-Left)
                    λ _.
                      Keeps-if (c == Commands.fetch) _ _ (λ _. Keeps-wrapping _ _ _ run_fetch-Left)
                        λ _. Keeps-fail _

  pub dispatch-Left : (r : Result Command) → Keeps InputLeft (dispatch host r)
  unfolding dispatch
  dispatch-Left (ok c) = Keeps-then _ _ (run_command-Left c) (Keeps-pure false)
  dispatch-Left (err e) =
      Keeps-if (is end_of_input e) _ _ (λ _. Keeps-pure true)
        λ _. Keeps-if (is empty_request e) _ _ (λ _. Keeps-pure false) λ _. Keeps-fail _
  dispatch-Left (crash k) = Keeps-lift _
