-- ===== src/Tests.antt =====
-- Concrete runs: a small repository, a registry with one tag, and each theorem with hypotheses at an
-- input where they hold.
mod Answers
mod BlobPush
mod Atomic
mod Blobs
mod Deleting
mod Lfs
mod Log
mod Parts
mod Pushing
mod Store
use gnoci.Base.{
  ℤ, In, ◌↔◌, List, [], ◌∷◌, ◌≡◌, ◌≢◌, refl, Option, none, some, true, false, Text, text, text_eq,
  ◌⊎◌, leb, length, list_beq, has_prefix, if◌then◌else◌, fields, split, trim_prefix, atoi, is_space,
}
use gnoci.Base.Dict.{lookup, insert}
use gnoci.Outcome.{
  crash, out_of_fuel, ok, err, sentinel, not_found, reference_not_found, wrapf, is_ok, for_each,
  ◌>>=◌,
}
use gnoci.Plumbing.{Reference, GoGit, Repository}
use gnoci.Oci.{Descriptor, Target, empty_descriptor, empty_manifest}
use gnoci.Protocol.Commands
use gnoci.Protocol.Push.{PushRequest, parse_push_request, push_request_text}
use gnoci.Protocol.Options.{parse_option_request, verbosity_option, option_supported}
use gnoci.Protocol.RoundTrip.{parse-push_request_text}
use gnoci.Comms.{Communicator, receive_push_batch, receive_fetch_batch}
use gnoci.Comms.Batches.{before, look_and_receive, look_and_receive-Parses}
use gnoci.Model.{
  Modeler, has_layer, new_modeler, resolve_ref, update_ref, delete_ref, commit_exists,
}
use gnoci.Model.Refs.{
  IsMade, storable, resolve_ref-update_ref, resolve_ref-delete_ref, update_ref_outcome,
}
use gnoci.Model.Exists.{FoundIn, FoundNowhere, commit_exists-result}
use gnoci.Model.Invariant.{SessionWellFormed}
use gnoci.Model.Session.{Outside, Session, push}
use gnoci.Model.Session.Atomic.{IsRegistry, Ended, push-Ended}
use gnoci.Model.Lfs.{update_lfs_referrer}
use gnoci.Model.Lfs.Updates.{update_lfs_referrer-Keeps}
use gnoci.Refcomp.{
  RefPair, compare, resolve_local, resolve_remote, compare_names, compare_cached,
  new_cached_ref_comparer,
}
use gnoci.Refcomp.Safety.{IsFastForward, compare_cached-IsFastForward}
use gnoci.Refcomp.Cache.{compare_cached-again}
use gnoci.Cmd.Compare.{handle_request, handle_pair, update_remote, compare_refs}
use gnoci.Cmd.Compare.Answers.{answered, compare_refs-answered}
use gnoci.Cmd.Compare.Deferred.{Covered, compare_refs-Covered}
use gnoci.Cmd.Options.{Level, Console, handle_option, level_info}
use gnoci.Cmd.Options.Answers.{IsLevel, replied, handle_option-replied}
use gnoci.Protocol.Lists.{ListResponse}
use gnoci.Cmd.Lists.{list_results, local_head}
use gnoci.Cmd.Lists.Entries.{Shows, ShowsHead, list_results-Listed}
use gnoci.Cmd.Push.{Packer, Link, handle_push}
use gnoci.Cmd.Push.Placed.{handle_push-IsWellFormed}
use gnoci.Actions.Git.{GitAction, Host, run}
use gnoci.Actions.Git.Ends.{Runs, run-Runs}

-- A hash is the length of its text.
abbrev small_git : GoGit
small_git = record {
  is_branch = λ n. has_prefix n (text "refs/heads/");
  is_tag = λ n. has_prefix n (text "refs/tags/");
  new_hash = λ t. length t;
  hash_string = λ h. text "ab";
  show_reference = λ r. r.name;
}

-- Every commit exists, and the older ones have the smaller hashes. Local names point to commit 2.
abbrev small_repo : Repository
small_repo = record {
  reference = λ n. ok (record { name = n; hash = 2 });
  head = none;
  commit_object = λ h. ok (record { hash = h });
  is_ancestor = λ a b. ok (leb a.hash b.hash);
  objects = λ wanted ignored. ok wanted;
}

abbrev main : Text
main = text "refs/heads/main"

abbrev other : Text
other = text "refs/heads/other"

abbrev pack : Descriptor
pack = record { media_type = []; digest = text "d"; size = 1 }

-- One layer, and the branch main at commit 1 in it
abbrev small_model : Modeler
small_model = record (new_modeler (text "reg/repo:tag")) {
  fetched = true;
  man = record empty_manifest { layers = pack ∷ [] };
  cfg = record {
    heads = some ((main, record { commit = text "a"; layer = text "d" }) ∷ []);
    tags = some [];
  };
  refs_by_layer = (text "d", 1 ∷ []) ∷ [];
}

abbrev small_model-IsMade : IsMade small_model.cfg
small_model-IsMade = record { heads_made = (_, refl); tags_made = (_, refl) }

-- A registry with one tag
abbrev tag_store : Target (Option Descriptor)
tag_store = record {
  resolve = λ t ref. elim t [ none ↦ err (sentinel not_found) | some d ↦ ok d ];
  fetch_all = λ t d. ok [];
  fetch = λ t d. ok [];
  push = λ d raw t. (ok tt, t);
  tag = λ d ref t. (ok tt, some d);
  push_bytes = λ media raw t. (ok pack, t);
  pack_manifest = λ media o t. (ok pack, t);
  referrers = λ t d. (empty_descriptor ∷ [], none);
  delete = none;
}

abbrev small_outside : Outside (Option Descriptor) (Unit {0})
small_outside = record {
  git = small_git;
  target = tag_store;
  files = record { add = λ name media path f. (ok pack, f); fetch = λ f d. ok [] };
  codec = record {
    marshal_config = λ cfg. ok [];
    unmarshal_config = λ raw cfg. (ok tt, cfg);
    unmarshal_manifest = λ raw m. (ok tt, m);
  };
  encoded = λ d. d;
  now = [];
  manifest_media_type = [];
}

abbrev small_session : Session (Option Descriptor) (Unit {0})
small_session = record {
  model = record small_model { new_packs = pack ∷ [] };
  target = none;
  files = tt;
  tickers = 0;
}

abbrev small_packer : Packer (Unit {0})
small_packer = record {
  make_temp = λ f. (ok [], f);
  remove_all = λ p f. (ok tt, f);
  init_repo = λ p f. (ok tt, f);
  is_packfile_writer = true;
  packfile_writer = λ p f. (ok tt, f);
  encode = λ p hs thin f. (ok 2, f);
  absolute = λ p. ok p;
}

abbrev reading : List Text → Communicator
reading lines = record {
  input = record { lines = lines; fault = none };
  out = record { written = []; fault = none };
  previous = [];
}

abbrev push_line : Text
push_line = text "push refs/heads/main:refs/heads/main"

abbrev push_request : PushRequest
push_request = record { cmd = Commands.push; force = false; src = main; remote = main }

-- The tag as the local repository has it goes to a branch that the remote does not have.
abbrev second_request : PushRequest
second_request = record {
  cmd = Commands.push;
  force = true;
  src = text "refs/tags/v";
  remote = other;
}

abbrev small_link : Link (Option Descriptor) (Unit {0})
small_link = record { session = small_session; comm = reading (push_line ∷ [] ∷ []) }

handle_push-IsWellFormed_example :
    SessionWellFormed small_git
      (handle_push small_outside small_packer small_repo small_link).1.session
unfolding has_prefix has_layer list_beq
handle_push-IsWellFormed_example =
    handle_push-IsWellFormed small_outside small_packer small_repo small_link
      (record { heads_placed = ((refl, refl), tt); tags_placed = tt })

abbrev small_pair : RefPair
small_pair = record {
  local = some (record { name = main; hash = 2 });
  remote = record { name = main; hash = 1 };
  status = 6;
  layer = [];
}

main_compared : compare_names small_git small_repo false main main small_model ≡ ok small_pair
unfolding compare_names compare resolve_local resolve_remote commit_exists resolve_ref has_prefix
    list_beq lookup
main_compared = refl

batch_ran :
    is_ok (compare_refs small_git small_repo (push_request ∷ second_request ∷ []) small_model).0
    ≡ true
unfolding compare_refs handle_request handle_pair update_remote compare_cached compare_names compare
    resolve_local resolve_remote commit_exists resolve_ref has_prefix list_beq lookup insert
    for_each ◌>>=◌
batch_ran = refl

compare_refs-answered_example :
    answered (compare_refs small_git small_repo (push_request ∷ second_request ∷ []) small_model).1
    ≡ main ∷ other ∷ []
compare_refs-answered_example =
    compare_refs-answered small_git small_repo (push_request ∷ second_request ∷ []) small_model
      batch_ran

compare_refs-Covered_example :
    Covered (compare_refs small_git small_repo (push_request ∷ second_request ∷ []) small_model).1
compare_refs-Covered_example =
    compare_refs-Covered small_git small_repo (push_request ∷ second_request ∷ []) small_model

main_cached :
    (compare_cached small_git small_repo false main main (new_cached_ref_comparer small_model)).0
    ≡ ok small_pair
unfolding compare_cached lookup new_cached_ref_comparer
main_cached = rw main_compared refl

compare_cached-IsFastForward_example :
    (small_pair.local ≡ some (record { name = main; hash = 2 }))
    × (small_pair.remote ≡ record { name = main; hash = 1 })
    × IsFastForward small_repo 1 2
unfolding compare_cached lookup new_cached_ref_comparer resolve_ref has_prefix list_beq
compare_cached-IsFastForward_example =
    compare_cached-IsFastForward small_git small_repo main main (text "d")
      (record { name = main; hash = 2 }) (record { name = main; hash = 1 })
      (new_cached_ref_comparer small_model) small_pair refl refl refl refl refl main_cached

compare_cached-again_example :
    compare_cached small_git small_repo true other main
      (compare_cached small_git small_repo false main main (new_cached_ref_comparer small_model)).1
    ≡ (
      ok small_pair,
      (compare_cached small_git small_repo false main main (new_cached_ref_comparer small_model)).1,
    )
compare_cached-again_example =
    compare_cached-again small_git small_repo false true main other main small_pair
      (new_cached_ref_comparer small_model) main_cached

commit_found : commit_exists small_git small_repo (record { hash = 1 }) small_model ≡ ok (text "d")
unfolding commit_exists lookup list_beq
commit_found = refl

commit_exists-result_example :
    FoundIn small_git small_repo
      (record { hash = 1 })
      small_model.man.layers
      small_model.refs_by_layer
      (text "d")
    ⊎ ((text "d" ≡ [])
        × FoundNowhere small_git small_repo
            (record { hash = 1 })
            small_model.man.layers
            small_model.refs_by_layer)
commit_exists-result_example =
    commit_exists-result small_git small_repo (record { hash = 1 }) small_model (text "d")
      commit_found

abbrev short_line : Text
short_line = text "push +a:b"

abbrev short_request : PushRequest
short_request = record { cmd = Commands.push; force = true; src = text "a"; remote = text "b" }

short_fields : fields short_line ≡ Commands.push ∷ text "+a:b" ∷ []
unfolding fields is_space
short_fields = refl

short_parses : parse_push_request (fields short_line) ≡ ok short_request
unfolding parse_push_request split has_prefix trim_prefix list_beq
short_parses = rw short_fields refl

short_some : fields short_line ≢ []
short_some = rw short_fields (λ e. cc)

look_and_receive-Parses_example :
    look_and_receive (before (reading []) (short_line ∷ short_line ∷ [] ∷ short_line ∷ []))
    ≡ (ok (short_request ∷ short_request ∷ []), before (reading []) (short_line ∷ []))
unfolding fields
look_and_receive-Parses_example =
    look_and_receive-Parses short_line (short_line ∷ []) short_request (short_request ∷ [])
      (reading []) [] (short_line ∷ []) (short_parses, short_some, (short_parses, short_some, tt))
      refl

resolve_ref-update_ref_example :
    resolve_ref small_git main
      (update_ref small_git (record { name = main; hash = 2 }) (text "d") small_model).1
    ≡ ok (record { name = main; hash = 2 }, text "d")
unfolding has_prefix has_layer list_beq
resolve_ref-update_ref_example =
    resolve_ref-update_ref small_git (record { name = main; hash = 2 }) (text "d") main small_model
      small_model-IsMade refl refl

resolve_ref-delete_ref_example :
    resolve_ref small_git main (delete_ref small_git main small_model).1
    ≡ err (wrapf "%w: %s" (main ∷ []) (sentinel reference_not_found))
unfolding has_prefix list_beq
resolve_ref-delete_ref_example = resolve_ref-delete_ref small_git main main small_model refl

abbrev unknown_name : Reference
unknown_name = record { name = text "refs/notes/n"; hash = 2 }

update_ref_outcome_example :
    ((is_ok (update_ref small_git unknown_name (text "d") small_model).0 ≡ true) ↔ (
      In (text "d") (text "d" ∷ [])
      × ((small_git.is_branch unknown_name.name ≡ true)
          ⊎ (small_git.is_tag unknown_name.name ≡ true))))
    × (is_ok (update_ref small_git unknown_name (text "d") small_model).0 ≡ false
        → (update_ref small_git unknown_name (text "d") small_model).1 ≡ small_model)
update_ref_outcome_example =
    update_ref_outcome small_git unknown_name (text "d") small_model small_model-IsMade

abbrev console : Console
console = record {
  comm = record (reading []) { previous = Commands.options ∷ verbosity_option ∷ text "2" ∷ [] };
  level = level_info;
}

option_parses :
    parse_option_request (Commands.options ∷ verbosity_option ∷ text "2" ∷ [])
    ≡ ok (record { cmd = Commands.options; opt = verbosity_option; value = text "2" })
unfolding parse_option_request atoi list_beq
option_parses = refl

handle_option-replied_example :
    (verbosity_option ≡ text "verbosity"
      → (n : ℤ) × (level : Level) × (atoi (text "2") ≡ some n)
        × IsLevel n level
        × (handle_option console ≡ (ok tt, record (replied console (text "ok")) { level = level })))
    × (verbosity_option ≢ text "verbosity"
        → handle_option console ≡ (ok tt, replied console (text "unsupported")))
handle_option-replied_example =
    handle_option-replied console Commands.options (verbosity_option ∷ text "2" ∷ [])
      (record { cmd = Commands.options; opt = verbosity_option; value = text "2" }) refl
      option_parses refl

abbrev small_host : Host (Option Descriptor) (Unit {0}) (Unit {0})
small_host = record {
  out = small_outside;
  packer = small_packer;
  objects = record { is_storer = true; update = λ p l. (ok tt, l); close = λ p. ok tt };
  plain_open = λ d. ok small_repo;
}

abbrev small_action : GitAction (Option Descriptor) (Unit {0}) (Unit {0})
small_action = record {
  git_dir = text ".git";
  local = none;
  console = record {
    comm = reading (text "capabilities" ∷ [] ∷ push_line ∷ [] ∷ []);
    level = level_info;
  };
  session = small_session;
  objects = tt;
}

run-Runs_example :
    Runs small_host small_action (run small_host small_action)
    × ((c : Communicator) → (receive_push_batch c).0 ≢ crash out_of_fuel)
    × ((c : Communicator) → (receive_fetch_batch small_git c).0 ≢ crash out_of_fuel)
run-Runs_example = run-Runs small_host small_action tt

abbrev main_response : ListResponse
main_response = record { reference = main; commit = text "a" }

list_results-Listed_example :
    In main_response (list_results false (some small_repo) small_model) ↔ (
      Shows small_model.cfg.heads main_response
      ⊎ (Shows small_model.cfg.tags main_response
          ⊎ ShowsHead false (some small_repo) small_model main_response))
list_results-Listed_example = list_results-Listed false (some small_repo) small_model main_response
