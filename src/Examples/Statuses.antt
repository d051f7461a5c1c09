-- ===== src/Examples/Statuses.antt =====
-- A client that asks a scripted gateway for a job's status.
use pazuzu.Base.{
  pos, ◌≡◌, refl, true, false, some, List, [], ◌∷◌, Text, codes, map, all, is_digit, text_eq,
  contains,
}
use pazuzu.Errors.{Kind, Result, ok, raise}
use pazuzu.Exec.{pure, handle, finally, ◌>>=◌}
use pazuzu.Json.{Json, Dict, object_of, get, has_keys}
use pazuzu.Slurm.Queue.{queue_fields, account_fields, print_lines, account_status}
use pazuzu.Supervisor.Operations.{CommandResult}
use pazuzu.Gateway.{result_dict, encode_message, decode_message}
use pazuzu.Gateway.Server.{success}
use pazuzu.Gateway.Calls.{Client, call_gateway, execute_via_gateway, exchange, read_reply}
use pazuzu.Client.{Runtime, execute, command_result_of, read, require_success, slurm_status}
use pazuzu.Client.Status.{status_of, live_rows, slurm_status-rows}
use pazuzu.Examples.Jobs.{queue, accounts, queue_lines, account_lines}

-- What the gateway's commands will return.
abbrev pub Results : Type 0
Results = List CommandResult

abbrev pub next_reply : Results → Result Dict × Results
next_reply [] = (raise Kind.timeout_error [], [])
next_reply (r ∷ results) = (ok (success (Json.text (codes "1")) (result_dict r)), results)

abbrev pub client : Client Dict Results
client = record {
  link = record {
    open_connection = λ w. (ok tt, w);
    write = λ line w. (ok tt, w);
    read_line = λ timeout w. next_reply w;
    close_connection = λ w. w;
  };
  codec = record { dumps = λ d. d; loads = λ d. some (Json.object (object_of d)); size = λ d. 0 };
  str_json = λ v. codes "?";
  format_seconds = λ n. [];
  socket_path = codes "/x/gateway.sock";
}

abbrev pub python : Runtime Results
python = record { uuid4 = pure (codes "1"); encode = λ t. ok t; arguments_error = λ d. [] }

abbrev printed : Text → CommandResult
printed stdout = record {
  exit_code = pos 0;
  stdout = stdout;
  stderr = [];
  stdout_truncated = false;
  stderr_truncated = false;
  connection_generation = 1;
  replayed = false;
}

-- The job has left the queue, so squeue fails.
abbrev queued : CommandResult
queued = record (printed (print_lines (map queue_fields queue))) { exit_code = pos 1 }

abbrev accounted : CommandResult
accounted = printed (print_lines (map account_fields accounts))

-- Each read gets the next result.
reads_next :
    (command : Text) (r : CommandResult) (results : Results)
    → read client python command (codes "") 30_000 (r ∷ results) ≡ (ok r, results)
unfolding read execute ◌>>=◌ execute_via_gateway call_gateway handle finally exchange encode_message
    decode_message read_reply get success text_eq command_result_of has_keys result_dict contains
reads_next command r results = refl

digits : all is_digit (codes "42") ≡ true
unfolding is_digit
digits = refl

slurm_status-rows_example :
    (slurm_status client python (codes "42") (queued ∷ accounted ∷ [])).0
    ≡ status_of
        (codes "42")
        (require_success queued (codes "squeue"))
        (live_rows (codes "42") queued queue)
        (account_status (codes "42") accounts)
slurm_status-rows_example =
    slurm_status-rows client python (codes "42") queued accounted queue accounts
      (queued ∷ accounted ∷ []) (accounted ∷ []) [] refl digits (reads_next _ queued _)
      (reads_next _ accounted _) refl refl refl queue_lines account_lines
