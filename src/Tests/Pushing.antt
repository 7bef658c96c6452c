-- ===== src/Tests/Pushing.antt =====
-- A push that succeeds: the branch main goes to a new packfile, and another branch is deleted.
use gnoci.Base.{◌≡◌, refl, none, true, List, [], ◌∷◌, Option, false, text}
use gnoci.Base.{list_beq, split, has_prefix, fields, is_space, contains, base_name}
use gnoci.Base.Dict.{lookup, insert, erase}
use gnoci.Outcome.{Result, ok, for_each, ◌>>=◌}
use gnoci.Outcome.Succeeds.{pairs}
use gnoci.Oci.{Descriptor}
use gnoci.Protocol.Commands
use gnoci.Protocol.Push.{PushRequest, PushResponse, parse_push_request, push_response_text}
use gnoci.Comms.{receive_push_batch, write_push_response, next, print_line}
use gnoci.Model.Session.{Outside, Session, fetch}
use gnoci.Model.Session.Published.{fresh}
use gnoci.Model.{
  Modeler, resolve_ref, commit_exists, delete_ref, head_refs, tag_refs, update_refs, update_ref,
  has_layer,
}
use gnoci.Model.Session.{add_pack, push, push_packs, run_updates}
use gnoci.Model.Lfs.{update_lfs_referrer, fetch_lfs, push_lfs_manifest}
use gnoci.Refcomp.{compare_cached, compare_names, resolve_local, resolve_remote, compare}
use gnoci.Cmd.Compare.{
  compare_refs, handle_request, handle_pair, update_remote, delete_remote, reachable_objs,
}
use gnoci.Model.Session.Added.{IsForeign}
use gnoci.Cmd.Compare.Done.{Distinct}
use gnoci.Cmd.Push.{Link, handle_push, push_refs, create_pack, tolerated, plan_push}
use gnoci.Cmd.Push.Pushed.{AllPushed, handle_push-AllPushed}
use gnoci.Tests.Deleting.{State, deleting_of}
use gnoci.Tests.{
  small_outside, small_packer, small_repo, small_session, small_model-IsMade, push_line,
  push_request, reading, other,
}

abbrev delete_request : PushRequest
delete_request = record { cmd = Commands.push; force = false; src = []; remote = other }

abbrev two_requests : List PushRequest
two_requests = push_request ∷ delete_request ∷ []

abbrev two_lines : Link (Option Descriptor) (Unit {0})
two_lines = record {
  session = small_session;
  comm = reading (push_line ∷ text "push :refs/heads/other" ∷ [] ∷ []);
}

abbrev after_push : Result (Unit {0}) × Link (Option Descriptor) (Unit {0})
after_push = handle_push small_outside small_packer small_repo two_lines

batch_read : (receive_push_batch two_lines.comm).0 ≡ ok two_requests
unfolding receive_push_batch ◌>>=◌ next fields is_space parse_push_request list_beq split has_prefix
batch_read = refl

push_succeeds : after_push.0 ≡ ok tt
unfolding handle_push ◌>>=◌ receive_push_batch next fields is_space parse_push_request list_beq
    split has_prefix compare_refs for_each handle_request compare_cached lookup compare_names
    resolve_local resolve_remote resolve_ref compare commit_exists handle_pair update_remote
    delete_remote delete_ref insert erase contains reachable_objs head_refs tag_refs push_refs
    create_pack tolerated add_pack base_name update_refs update_ref has_layer push push_packs
    run_updates update_lfs_referrer fetch_lfs push_lfs_manifest write_push_response print_line
    push_response_text plan_push
push_succeeds = refl

small_files-IsForeign : IsForeign small_outside.files
small_files-IsForeign = record { add_errors = λ name media path f e h. cc }

two_requests-Distinct : Distinct two_requests
two_requests-Distinct = ((λ e. cc, tt), (tt, tt))

handle_push-AllPushed_example :
    (resps : List PushResponse) × (write_push_response resps (receive_push_batch two_lines.comm).1
      ≡ (ok tt, after_push.1.comm))
    × AllPushed small_outside small_packer small_repo after_push.1.session.model two_requests resps
handle_push-AllPushed_example =
    handle_push-AllPushed small_outside small_packer small_repo small_files-IsForeign two_lines
      after_push.1 two_requests small_model-IsMade batch_read two_requests-Distinct
      (pairs push_succeeds refl)

-- The config and the layers that the push leaves, and a registry that has an LFS manifest, deletes it,
-- and whose JSON reads the config and the layers back
abbrev left : Modeler
left = after_push.1.session.model

abbrev deleting_left : Outside State (Unit {0})
deleting_left = deleting_of left.cfg left.man.layers

abbrev lines_there : Link State (Unit {0})
lines_there = record {
  session = record { model = small_session.model; target = (none, true); files = tt; tickers = 0 };
  comm = two_lines.comm;
}

abbrev after_kept : Result (Unit {0}) × Link State (Unit {0})
after_kept = handle_push deleting_left small_packer small_repo lines_there

abbrev fetched : Result Descriptor × Session State (Unit {0})
fetched = fetch deleting_left (fresh after_kept.1.session.model.ref after_kept.1.session.target tt)
