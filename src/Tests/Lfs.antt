-- ===== src/Tests/Lfs.antt =====
-- Concrete runs of the LFS agent: one upload and one download over a small registry.
use gnoci.Base.{◌≡◌, refl, [], ◌∷◌, Option, none, some, true, false, text, pos, nat_beq, list_beq}
use gnoci.Outcome.{
  ok, err, crash, deadlock, Error, errorf, wrapf, sentinel, layer_not_in_manifest, ◌>>=◌,
}
use gnoci.Outcome.Keeps.{Keeps}
use gnoci.Outcome.Rounds.{Finishes}
use gnoci.Oci.{Descriptor}
use gnoci.Model.{new_modeler}
use gnoci.Model.Session.{Session}
use gnoci.Model.Lfs.{push_lfs_file, fetch_lfs_layer}
use gnoci.Model.Lfs.Files.{FilesApart, push_lfs_file-Apart}
use gnoci.Connect.{Platform}
use gnoci.Transfer.{TransferRequest, upload_event, download_event}
use gnoci.Transfer.Wire.{Wire, WireCodec}
use gnoci.Transfer.Wire.Responses.{Marshals, put_line, complete, heard_all}
use gnoci.Actions.GitLfs.State.{LfsHost, LfsAction}
use gnoci.Actions.GitLfs.Transfers.{
  upload_request, download_request, download_lfs_layer, upload_round, download_round, run_upload,
  run_download, sha256_digest,
}
use gnoci.Actions.GitLfs.Ends.{RefusesEmpty, run_upload-Finishes, run_download-Finishes}
use gnoci.Actions.GitLfs.Uploads.{told, upload_request-told}
use gnoci.Actions.GitLfs.Present.{upload_request-present}
use gnoci.Actions.GitLfs.Downloads.{download_request-told, download_request-unanswered}
use gnoci.Tests.{small_outside, small_session, pack}

abbrev pub upload_one : TransferRequest
upload_one = record { event = upload_event; oid = text "o"; size = pos 1; path = text "p" }

abbrev pub download_one : TransferRequest
download_one = record { event = download_event; oid = text "d"; size = pos 1; path = [] }

-- Every text but the empty one is the request to upload.
abbrev pub small_json : WireCodec
small_json = record {
  marshal_init_request = λ r. ok (text "i");
  marshal_transfer_request = λ r. ok (text "r");
  marshal_init_response = λ r. ok (text "j");
  marshal_progress_response = λ r. ok (text "p");
  marshal_transfer_response = λ r. ok (text "t");
  unmarshal_init_request = λ t. ok none;
  unmarshal_transfer_request =
      λ t. elim t [ [] ↦ err (errorf "empty" []) | c ∷ cs ↦ ok (some upload_one) ];
  unmarshal_init_response = λ t. ok none;
  unmarshal_progress_response = λ t. ok none;
  unmarshal_transfer_response = λ t. ok (some (complete (text "o") [] none));
}

abbrev pub small_json-Marshals : Marshals small_json
small_json-Marshals = record {
  response_raw = λ r. text "t";
  response_is = λ r. refl;
  progress_raw = λ r. text "p";
  progress_is = λ r. refl;
}

small_json-RefusesEmpty : RefusesEmpty small_json
small_json-RefusesEmpty = record { refusal = (errorf "empty" [], refl) }

-- Every file exists, with a proxy and one registry
abbrev pub small_platform :
    Platform (Unit {0}) (Unit {0}) (Unit {0}) (Unit {0}) (Option Descriptor) (Unit {0})
small_platform = record {
  stat = λ p. ok tt;
  join_path = λ a b. b;
  read_file = λ p. ok [];
  home = [];
  docker_creds = ok tt;
  memory_creds = tt;
  system_certs = ok tt;
  append_certs = λ pem pool. pool;
  load_key_pair = λ cert key. ok tt;
  no_key_pair = tt;
  proxy_dialer = some tt;
  repository = λ conn. ok none;
  make_temp = λ p. ok [];
  new_store = λ p. ok tt;
}

-- Each ticker sends one message, and every copy is of one byte.
abbrev small_lfs_host :
    LfsHost (Unit {0}) (Unit {0}) (Unit {0}) (Unit {0}) (Option Descriptor) (Unit {0}) (Unit {0})
small_lfs_host = record {
  out = small_outside;
  json = small_json;
  platform = small_platform;
  disk = record {
    make_temp = λ p d. (ok [], d);
    remove_all = λ p d. (ok tt, d);
    open_file = λ p d. (ok tt, d);
    copy = λ p content d. (ok 1, d);
  };
  load_config = ok (record { registries = none });
  plain_open = ok (λ name. ok (record { printed = []; urls = [] }));
  parse_reference = λ t. ok (record { registry = []; host = []; printed = t });
  ticks = λ s. record { before = (pos 1, pos 1) ∷ []; after = some [] };
}

abbrev pub small_wire : Wire
small_wire = record {
  input = record { lines = text "r" ∷ []; fault = none };
  out = record { written = []; fault = none };
}

abbrev LfsSession : Type 0
LfsSession = Session (Option Descriptor) (Unit {0})

abbrev uploading : LfsAction (Option Descriptor) (Unit {0}) (Unit {0})
uploading = record { wire = small_wire; session = small_session; lfs_store = []; disk = tt }

abbrev uploaded : LfsSession
uploaded = (push_lfs_file small_outside (text "p") true small_session).1

file_pushed : push_lfs_file small_outside (text "p") true small_session ≡ (ok pack, uploaded)
unfolding push_lfs_file new_modeler ◌>>=◌
file_pushed = refl

ticker_started : nat_beq uploaded.tickers 0 ≡ false
unfolding push_lfs_file new_modeler ◌>>=◌
ticker_started = refl

upload_request-told_example : upload_request small_lfs_host pack upload_one uploading ≡ (
  ok false,
  record uploading {
    session = uploaded;
    wire =
        told small_lfs_host small_json-Marshals (text "o") none ((pos 1, pos 1) ∷ []) [] small_wire;
  },
)
upload_request-told_example =
    upload_request-told small_lfs_host small_json-Marshals pack upload_one uploading (ok pack)
      uploaded [] refl (λ e. cc) refl file_pushed refl ticker_started refl

run_upload-Finishes_example :
    Finishes (upload_round small_lfs_host pack) uploading (run_upload small_lfs_host pack uploading)
run_upload-Finishes_example =
    run_upload-Finishes small_lfs_host pack uploading small_json-RefusesEmpty

run_download-Finishes_example :
    Finishes (download_round small_lfs_host) uploading (run_download small_lfs_host uploading)
run_download-Finishes_example =
    run_download-Finishes small_lfs_host uploading small_json-RefusesEmpty

-- The registry holds the file already.
abbrev stocked : LfsSession
stocked = record small_session {
  model = record small_session.model {
    lfs_man = record small_session.model.lfs_man { layers = pack ∷ [] };
  };
}

abbrev uploading_again : LfsAction (Option Descriptor) (Unit {0}) (Unit {0})
uploading_again = record uploading { session = stocked }

upload_request-present_example :
    upload_request small_lfs_host pack upload_one uploading_again
    ≡ (crash deadlock, uploading_again)
unfolding list_beq
upload_request-present_example =
    upload_request-present small_lfs_host small_json-Marshals pack upload_one uploading_again pack
      tt refl (λ e. cc) refl refl refl

push_lfs_file-Apart_example :
    Keeps (FilesApart small_outside) (push_lfs_file small_outside (text "p") true)
push_lfs_file-Apart_example = push_lfs_file-Apart small_outside (text "p") true

abbrev sha_pack : Descriptor
sha_pack = record { media_type = []; digest = text "sha256:d"; size = 1 }

abbrev downloading : LfsAction (Option Descriptor) (Unit {0}) (Unit {0})
downloading = record uploading {
  session = record stocked {
    model = record stocked.model {
      lfs_man = record stocked.model.lfs_man { layers = sha_pack ∷ [] };
    };
  };
}

abbrev fetched : LfsSession
fetched = (fetch_lfs_layer small_outside (sha256_digest (text "d")) true downloading.session).1

layer_fetched :
    fetch_lfs_layer small_outside (sha256_digest (text "d")) true downloading.session
    ≡ (ok [], fetched)
unfolding fetch_lfs_layer ◌>>=◌ list_beq
layer_fetched = refl

fetch_started : nat_beq fetched.tickers 0 ≡ false
unfolding fetch_lfs_layer ◌>>=◌ list_beq
fetch_started = refl

download_request-told_example : download_request small_lfs_host download_one downloading ≡ (
  ok false,
  record downloading {
    session = fetched;
    wire =
        put_line
          (text "t")
          (heard_all small_json small_json-Marshals (text "d") ((pos 1, pos 1) ∷ []) small_wire);
  },
)
download_request-told_example =
    download_request-told small_lfs_host small_json-Marshals download_one downloading [] fetched []
      tt tt 1 refl (λ e. cc) (λ e. cc) refl layer_fetched fetch_started refl refl refl refl

abbrev missing_error : Error
missing_error =
    wrapf "fetching LFS file: %w" []
      (wrapf "%w: %s" (text "sha256:d" ∷ []) (sentinel layer_not_in_manifest))

download_failed :
    download_lfs_layer small_lfs_host download_one uploading ≡ (err missing_error, uploading)
unfolding download_lfs_layer fetch_lfs_layer new_modeler ◌>>=◌
download_failed = refl

download_request-unanswered_example :
    (x : Error) × (download_request small_lfs_host download_one uploading
      ≡ (err (wrapf "writing transfer response: %w" [] (Error.join missing_error x)), uploading))
download_request-unanswered_example =
    download_request-unanswered small_lfs_host small_json-Marshals download_one uploading uploading
      missing_error refl download_failed
