-- ===== src/Tests/BlobPush.antt =====
-- A push to the registry of blobs, which has the only layer.
use gnoci.Base.{
  ◌≡◌, refl, ap, inl, inr, [], ◌∷◌, In, list_beq, split, has_prefix, fields, is_space, contains,
  base_name, Text, text,
}
use gnoci.Base.Dict.{Dict, lookup, insert, erase}
use gnoci.Outcome.{Result, ok, for_each, ◌>>=◌}
use gnoci.Outcome.Succeeds.{pairs}
use gnoci.Protocol.Push.{parse_push_request, push_response_text}
use gnoci.Comms.{receive_push_batch, write_push_response, next, print_line}
use gnoci.Model.{
  resolve_ref, commit_exists, delete_ref, head_refs, tag_refs, update_refs, update_ref, has_layer,
  new_modeler,
}
use gnoci.Model.Session.{add_pack, push, push_packs, run_updates}
use gnoci.Model.Lfs.{update_lfs_referrer, fetch_lfs, push_lfs_manifest}
use gnoci.Refcomp.{compare_cached, compare_names, resolve_local, resolve_remote, compare}
use gnoci.Cmd.Compare.{
  compare_refs, handle_request, handle_pair, update_remote, delete_remote, reachable_objs,
}
use gnoci.Cmd.Push.{Link, handle_push, push_refs, create_pack, tolerated, plan_push}
use gnoci.Model.Session.Backed.{Backed}
use gnoci.Cmd.Push.Stored.{handle_push-NoneMissing}
use gnoci.Tests.Blobs.{blobs, blobs-IsBlobStore, blobs-Unreferring, new_pack, found}
use gnoci.Tests.{small_packer, small_repo, small_model, push_line, reading}

abbrev one_line : Link (Dict Text) (Unit {0})
one_line = record {
  session = record {
    model = small_model;
    target = (text "l", text "LFS") ∷ (text "d", text "OLD") ∷ [];
    files = tt;
    tickers = 0;
  };
  comm = reading (push_line ∷ [] ∷ []);
}

abbrev after_line : Result (Unit {0}) × Link (Dict Text) (Unit {0})
after_line = handle_push blobs small_packer small_repo one_line

line_pushed : (after_line.0 ≡ ok tt) × In new_pack after_line.1.session.model.man.layers
unfolding handle_push ◌>>=◌ receive_push_batch next fields is_space parse_push_request list_beq
    split has_prefix compare_refs for_each handle_request compare_cached lookup compare_names
    resolve_local resolve_remote resolve_ref compare commit_exists handle_pair update_remote
    delete_remote delete_ref insert erase contains reachable_objs head_refs tag_refs push_refs
    create_pack tolerated add_pack base_name update_refs update_ref has_layer push push_packs
    run_updates update_lfs_referrer fetch_lfs push_lfs_manifest write_push_response print_line
    push_response_text plan_push new_modeler
line_pushed = (refl, inr (inl refl))

one_line-Backed : Backed blobs one_line.session
unfolding lookup list_beq
one_line-Backed d (inl e) =
    inr (text "OLD", ap (λ x. found (lookup x.digest one_line.session.target)) e)
one_line-Backed d (inr none_left) = elim none_left [ ]

handle_push-NoneMissing_example :
    (raw : Text) × (blobs.target.fetch after_line.1.session.target new_pack ≡ ok raw)
unfolding list_beq
handle_push-NoneMissing_example =
    handle_push-NoneMissing blobs small_packer small_repo blobs-IsBlobStore one_line after_line.1
      one_line-Backed (pairs line_pushed.0 refl) new_pack line_pushed.1
      (blobs-Unreferring new_pack refl)
