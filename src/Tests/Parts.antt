-- ===== src/Tests/Parts.antt =====
-- Examples of the smaller parts: messages, progress, the connection, the map of references.
use gnoci.Base.{
  ◌≡◌, refl, inr, List, [], ◌∷◌, none, some, Text, text, pos, arith, list_beq, is_space, has_prefix,
  trim_prefix,
}
use gnoci.Base.Dict.{lookup}
use gnoci.Outcome.{ok, errorf}
use gnoci.Model.Refine.{Change, update, delete, view, changed, map_changes, changed-view}
use gnoci.Progress.{Ticker, Reach, begins, reads, moves, ticks, read, sending, progress}
use gnoci.Progress.Deltas.{IsCounted, Reach-IsCounted}
use gnoci.Progress.Closing.{IsEnding, failed-IsEnding}
use gnoci.Connect.{
  Address, Configuration, resolve_tls_cert_location, get_standard_cert_locations,
  repo_opts_from_config, new_graph_target, defaulter, new_http_client_with_ops,
  fetch_certs_from_location, create, Connection,
}
use gnoci.Connect.Options.{IsConfigured, new_graph_target-IsConfigured}
use gnoci.Transfer.{upload_event}
use gnoci.Transfer.Valid.{IsTransfer}
use gnoci.Transfer.Wire.{receive_transfer_request, write_transfer_upload_response}
use gnoci.Transfer.Reverse.{send_transfer_upload_request, receive_transfer_response}
use gnoci.Transfer.Reverse.Exchange.{
  fed, receive-send_transfer_upload_request, receive-write_transfer_upload_response,
}
use gnoci.Pipe.{scanned}
use gnoci.Comms.Batches.{before, look_and_receive}
use gnoci.Comms.Reverse.{Peer, push_request_of, send_push_request_batch}
use gnoci.Comms.Reverse.Pushes.{Sendable, look_and_receive-send_push_request_batch}
use gnoci.Tests.{reading, small_git, small_model, small_model-IsMade, main, other}
use gnoci.Tests.Lfs.{small_json, small_json-Marshals, small_platform, small_wire, upload_one}

-- The branch main moves, and then it is gone.
abbrev two_changes : List Change
two_changes = update (record { name = main; hash = 2 }) (text "d") ∷ delete other ∷ []

changed-view_example :
    view small_git (changed small_git two_changes small_model) main
    ≡ map_changes small_git small_model.man.layers two_changes (view small_git small_model) main
changed-view_example = changed-view small_git two_changes small_model main small_model-IsMade

-- Four bytes are read, a tick reports them, and the end of the file is read.
abbrev after_tick : Ticker
after_tick = record {
  reader = record { total = 4; delta = 0; err = none };
  phase = sending (record { total = 4; delta = 4 }) none;
  taken = [];
}

four_bytes : Reach 4 after_tick
unfolding read progress
four_bytes = moves (reads 4 none begins) (ticks refl)

Reach-IsCounted_example : IsCounted 4 after_tick
Reach-IsCounted_example = Reach-IsCounted 4 after_tick four_bytes (omega arith)

abbrev at_end_of_file : Ticker
at_end_of_file = record after_tick {
  reader = record { total = 4; delta = 0; err = some (errorf "EOF" []) };
}

failed-IsEnding_example : IsEnding at_end_of_file
failed-IsEnding_example = failed-IsEnding at_end_of_file (errorf "EOF" []) refl

abbrev reg : Address
reg = record { registry = text "reg"; host = text "reg"; printed = text "reg/repo:tag" }

abbrev no_config : Configuration
no_config = record { registries = none }

target_made :
    new_graph_target small_platform reg (repo_opts_from_config (text "reg") no_config) ≡ ok none
unfolding new_graph_target defaulter repo_opts_from_config lookup create new_http_client_with_ops
    resolve_tls_cert_location get_standard_cert_locations fetch_certs_from_location list_beq
target_made = refl

new_graph_target-IsConfigured_example :
    (conn : Connection (Unit {0}) (Unit {0}) (Unit {0}) (Unit {0})) × ((small_platform.repository
          conn
        ≡ ok none)
      × IsConfigured small_platform reg no_config conn)
new_graph_target-IsConfigured_example =
    new_graph_target-IsConfigured small_platform reg no_config none target_made

upload_one-IsTransfer : IsTransfer upload_one
upload_one-IsTransfer = record {
  event_is = inr refl;
  oid_given = λ e. cc;
  size_positive = refl;
  path_given = λ u e. cc;
}

receive-send_transfer_upload_request_example :
    receive_transfer_request small_json (
      fed
        (send_transfer_upload_request small_json (text "o") (pos 1) (text "p") small_wire).1
        small_wire)
    ≡ (ok (some upload_one), record small_wire { input = record { lines = []; fault = none } })
receive-send_transfer_upload_request_example =
    receive-send_transfer_upload_request small_json (text "o") (pos 1) (text "p") small_wire
      small_wire refl refl upload_one-IsTransfer
      (record {
        raw = text "r";
        printed = refl;
        is_line = record { no_newline = (refl, tt); no_return = (refl, tt) };
        back = refl;
      })

receive-write_transfer_upload_response_example :
    receive_transfer_response small_json upload_event
      (fed (write_transfer_upload_response small_json (text "o") none small_wire).1 small_wire)
    ≡ (ok tt, record small_wire { input = record { lines = []; fault = none } })
receive-write_transfer_upload_response_example =
    receive-write_transfer_upload_response small_json small_json-Marshals (text "o") none small_wire
      small_wire refl refl (λ e. cc)
      (record { is_line = record { no_newline = (refl, tt); no_return = (refl, tt) }; back = refl })

abbrev small_peer : Peer
small_peer = record {
  input = record { lines = []; fault = none };
  out = record { written = []; fault = none };
}

-- A forced push of a to b
abbrev short_entry : Text × Text
short_entry = (text "+a", text "b")

short_entry-Sendable : Sendable (short_entry ∷ [])
unfolding push_request_of is_space trim_prefix has_prefix
short_entry-Sendable = (
  record {
    cmd_is = refl;
    src_name = record { is_word = (refl, tt); no_colon = (refl, tt) };
    remote_name = record { is_word = (refl, tt); no_colon = (refl, tt) };
    plain = λ h. cc;
  },
  tt,
)

look_and_receive-send_push_request_batch_example :
    look_and_receive (
      before
        (reading [])
        (scanned (send_push_request_batch (short_entry ∷ []) small_peer).1.out.written))
    ≡ (ok (push_request_of short_entry ∷ []), before (reading []) [])
look_and_receive-send_push_request_batch_example =
    look_and_receive-send_push_request_batch short_entry [] small_peer (reading []) refl refl
      short_entry-Sendable
