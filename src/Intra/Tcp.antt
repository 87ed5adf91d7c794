-- ===== src/Intra/Tcp.antt =====
-- The type `tcpHandler` of intra/tcp.go, and the type `tcpSNIReporter` of intra/sni_reporter.go, which
-- is one of its fields. The
-- library that makes the reports of a choir reporter is not modelled: a report is what it is given.
pub mod Routes
pub mod Reports
pub mod Transports
pub mod Forwarding
use outline_go_tun2socks.Common.{
  ℕ, ◌-◌, ◌*◌, ◌/◌, ◌%◌, ◌^◌, Bool, true, false, ◌&&◌, List, [], ◌∷◌, Option, none, some,
  if◌then◌else◌, ltb, ◌==◌,
}
use outline_go_tun2socks.Net.Ip.{equal}
use outline_go_tun2socks.Net.Conn.{Error, Conn}
use outline_go_tun2socks.Net.Dialer.{TcpAddr, Dialer, Dialed, connected, failed, dial}
use outline_go_tun2socks.Split.Splitter.{Splitter, SplitDialed, dial_with_split}
use outline_go_tun2socks.Split.Splitter
use outline_go_tun2socks.Split.Retrier.{
  Retrier, RetrierDialed, RetryStats, no_stats, dial_with_split_retry,
}
use outline_go_tun2socks.Split.Retrier as Retrying

-- The remote socket, by its type.
pub data Remote : Type 0 where
  plain : Conn → Remote
  splits : Splitter → Remote
  retries : Retrier → Remote

-- `server_port` is the 16 bits of the int16.
pub record TcpSummary : Type 0 where
  pub download_bytes : ℕ
  pub upload_bytes : ℕ
  pub duration : ℕ
  pub server_port : ℕ
  pub synack : ℕ
  pub retry : Option RetryStats

pub record SniReport : Type 0 where
  pub sni : List ℕ
  pub success : Bool
  pub timed_out : Bool

-- `reports_enabled` says whether the SNI reporter has been configured. `summaries` is what the listener
-- was told, `reports` what the reporter was given, newest first; `stores` says which DNS transport is
-- stored, by the number of its pointer. `suffix` is the domain that reports go to.
pub record TcpHandler : Type 0 where
  pub fakedns : TcpAddr
  pub stores : Option ℕ
  pub reporter_dns : Option ℕ
  pub suffix : List ℕ
  pub always_split_https : Bool
  pub dialer : Dialer
  pub reports_enabled : Bool
  pub summaries : List TcpSummary
  pub reports : List SniReport

abbrev pub minus_one : ℕ
minus_one = 2 ^ 16 - 1

-- The address is a `TCPAddr`, whose text always has a port.
unfoldable pub filtered_port : TcpAddr → ℕ
filtered_port addr =
    if addr.port == 80
    then 80
    else if addr.port == 443
    then 443
    else if addr.port == 0
    then 0
    else minus_one

abbrev new_summary : ℕ → ℕ → Option RetryStats → TcpSummary
new_summary port synack retry = record {
  download_bytes = 0;
  upload_bytes = 0;
  duration = 0;
  server_port = port;
  synack = synack;
  retry = retry;
}

pub data Handled : Type 0 where
  to_dns : Option ℕ → Handled
  refused : Error → Handled
  forwards : Remote → TcpSummary → Handled

abbrev milliseconds : ℕ → ℕ → ℕ
milliseconds before after = (after - before) / 1000000

abbrev handle_split : TcpHandler → ℕ → ℕ → Dialer × SplitDialed → TcpHandler × Handled
handle_split h before after (d, Splitter.refused e) = (record h { dialer = d }, refused e)
handle_split h before after (d, Splitter.dialed s) = (
  record h { dialer = d },
  forwards (splits s) (new_summary 443 (milliseconds before after) none),
)

abbrev handle_retry : TcpHandler → ℕ → ℕ → Dialer × RetrierDialed → TcpHandler × Handled
handle_retry h before after (d, Retrying.refused e) = (record h { dialer = d }, refused e)
handle_retry h before after (d, Retrying.dialed r) = (
  record h { dialer = d },
  forwards (retries r) (new_summary 443 (milliseconds before after) (some no_stats)),
)

abbrev handle_plain : TcpHandler → ℕ → ℕ → ℕ → Dialer × Dialed → TcpHandler × Handled
handle_plain h port before after (d, failed e) = (record h { dialer = d }, refused e)
handle_plain h port before after (d, connected c) = (
  record h { dialer = d },
  forwards (plain c) (new_summary port (milliseconds before after) none),
)

abbrev pub is_dns : TcpHandler → TcpAddr → Bool
is_dns h target = equal target.ip h.fakedns.ip && target.port == h.fakedns.port

-- `Handle`, where `before` and `after` are the times around the dial.
unfoldable pub handle : TcpAddr → ℕ → ℕ → TcpHandler → TcpHandler × Handled
unfolding filtered_port
handle target before after h =
    if is_dns h target
    then (h, to_dns h.stores)
    else if filtered_port target == 443
    then (if h.always_split_https
        then handle_split h before after (dial_with_split h.dialer target)
        else handle_retry h before after (dial_with_split_retry h.dialer target before after))
    else handle_plain h (filtered_port target) before after (dial h.dialer target)

-- `Report`, for a summary that has retry stats. The two values are in the reporter's list of values.
unfoldable pub report : TcpSummary → RetryStats → TcpHandler → TcpHandler
report summary stats h =
    if stats.split == 0
    then h
    else if h.reports_enabled
    then record h {
      reports =
          record {
            sni = stats.sni;
            success = ltb 0 summary.download_bytes;
            timed_out = stats.timeout;
          }
          ∷ h.reports;
    }
    else h

abbrev report_retry : TcpSummary → Option RetryStats → TcpHandler → TcpHandler
report_retry summary none h = h
report_retry summary (some stats) h = report summary stats h

-- What is in the summary's stats when the socket has been closed.
abbrev final_stats : Option RetryStats → RetryStats → Option RetryStats
final_stats none stats = none
final_stats (some _) stats = some stats

-- The end of `forward`: the download and the upload copied so many bytes, and the retrier left these
-- stats, which it shares with the summary.
unfoldable pub finish_forward : ℕ → ℕ → ℕ → RetryStats → TcpSummary → TcpHandler → TcpHandler
unfolding report
finish_forward download upload seconds stats summary h =
    let s : TcpSummary = record summary {
      download_bytes = download;
      upload_bytes = upload;
      duration = seconds;
      retry = final_stats summary.retry stats;
    } in
    report_retry s s.retry (record h { summaries = s ∷ h.summaries })

unfoldable pub set_dns : Option ℕ → TcpHandler → TcpHandler
set_dns dns h = record h { stores = dns; reporter_dns = dns }

unfoldable pub set_always_split_https : Bool → TcpHandler → TcpHandler
set_always_split_https s h = record h { always_split_https = s }

unfoldable pub new_tcp_handler : TcpAddr → Dialer → TcpHandler
new_tcp_handler fakedns dialer = record {
  fakedns = fakedns;
  stores = none;
  reporter_dns = none;
  suffix = [];
  always_split_https = false;
  dialer = dialer;
  reports_enabled = false;
  summaries = [];
  reports = [];
}

-- `EnableSNIReporter` and `Configure`, where `made` says whether `choir.NewReporter` gives a reporter. A
-- failure leaves no reporter, also where there was one.
unfoldable pub configure : Bool → List ℕ → TcpHandler → TcpHandler × Bool
configure made suffix h = (record h { suffix = suffix; reports_enabled = made }, made)

-- `Send`, which never reports an error: the transport that is asked and the query, where
-- `choir.FormatQuery` can format it for the suffix.
pub data Sent : Type 0 where
  not_formatted : Sent
  queries : Option ℕ → List ℕ → Sent

abbrev send_query : Option ℕ → Option (List ℕ) → Sent
send_query dns none = not_formatted
send_query dns (some q) = queries dns q

unfoldable pub send : (List ℕ → Option (List ℕ)) → TcpHandler → Sent
send format_query h = send_query h.reporter_dns (format_query h.suffix)
