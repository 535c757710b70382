-- ===== src/Commands/Calls.antt =====
-- A subcommand of src/commands.rs that reaches a supervisor, from its arguments to its report.
use mesh_supervisor.Commands.Report.{surprise}
use mesh_supervisor.Proto.Frame.{write_msg, IsInverse}
use mesh_supervisor.Supervisor.{accept, Host, Supervisor, answer, received}
use mesh_supervisor.Prelude.{
  nat_eq, Result, ◌>>=◌, ok, ℕ, ◌≤◌, max, ◌≡◌, sym, ap, subst, ◌≢◌, false, List,
}
use mesh_supervisor.Commands.Expected.{accept-Answers, report_of-Answers}
use mesh_supervisor.Client.Exchange.{request_answers, link_to}
use mesh_supervisor.Client.Retry.{is_failure}
use mesh_supervisor.Config.{ClientConfig}
use mesh_supervisor.Commands.Report.{Report, surprise, report_of, request_of, Subcommand, run}
use mesh_supervisor.Process.State.{Stdout}
use mesh_supervisor.Supervisor.Stream.{Received}
use mesh_supervisor.Proto.{EndpointId, Response, Request}
use mesh_supervisor.Proto.Frame.{IsInverse, Bytes, Codec}
use mesh_supervisor.Store.Database.{Disk}
use mesh_supervisor.Client.Session.{request}
use mesh_supervisor.Commands.Told.{asked, request_of-asked, Tells, report_of-Tells}

module _ (d : Disk) (requests : Codec Request) (responses : Codec Response)
    (receiver : Stdout → List Received) (s : Supervisor d) (host : Host) (remote : EndpointId)
    (now : ℕ) (inverse_requests : IsInverse requests)
    (inverse_responses : IsInverse responses) where
  -- A subcommand that dials the supervisor within its retries tells what `accept` answers to its
  -- request, if both frames can be sent: an error as the failure of the command, an `Ack` as done for
  -- its handle, a spawn's handle and pid, and each listed or queried process in its line. It never finds
  -- the response unexpected. What it asks is its own request, for the handle, signal or spec that it
  -- was given. Encodings decode.
  pub run_reports :
      {E : Type 0} (cfg : ClientConfig) (dial : ℕ → Result E (Unit {0})) (j : ℕ)
      → 1 ≤ j
      → j ≤ max cfg.max_retries 1
      → is_failure (dial j) ≡ false
      → (cmd : Subcommand) (sent : Bytes) (resp : Response) (back : Bytes)
      → write_msg requests (asked cmd) ≡ ok sent
      → (accept d s host remote now (received (asked cmd))).1 ≡ answer resp
      → write_msg responses resp ≡ ok back
      → (report : Report) × (run
            (request requests responses cfg dial
              (link_to d requests responses receiver s host remote now))
            cmd
          ≡ ok report)
        × Tells cmd resp report
        × ((other : Response) → report ≢ surprise other)
  unfolding run
  run_reports cfg dial j first last works cmd sent resp back framed answered framed_back =
      let same = sym (request_of-asked cmd) in
      let framed' = subst (λ r. write_msg requests r ≡ ok sent) same framed in
      let answered' =
        subst (λ r. (accept d s host remote now (received r)).1 ≡ answer resp) same answered in
      let belongs = accept-Answers d s host remote now (request_of cmd) resp answered' in
      (
        report_of cmd resp,
        ap (λ r. r >>= λ x. ok (report_of cmd x))
            (request_answers d requests responses receiver s host remote now inverse_requests
              inverse_responses cfg dial j first last works (request_of cmd) sent resp back framed'
              answered' framed_back),
        report_of-Tells cmd resp belongs,
        λ other. report_of-Answers other cmd resp belongs,
      )
