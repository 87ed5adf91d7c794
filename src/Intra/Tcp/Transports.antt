-- ===== src/Intra/Tcp/Transports.antt =====
-- The operations of the TCP handler leave its DNS transport and the fake DNS address alone.
use outline_go_tun2socks.Common.{
  ℕ, ◌≡◌, refl, ap, Bool, true, false, ◌∷◌, Option, none, some, if-true, ◌==◌, if◌then◌else◌, arith,
}
use outline_go_tun2socks.Net.Dialer.{TcpAddr, Dialer, Dialed, connected, failed, dial}
use outline_go_tun2socks.Split.Splitter.{SplitDialed, dial_with_split}
use outline_go_tun2socks.Split.Splitter
use outline_go_tun2socks.Split.Retrier.{RetrierDialed, RetryStats, dial_with_split_retry}
use outline_go_tun2socks.Split.Retrier as Retrying
use outline_go_tun2socks.Net.Ip.{equal_refl}
use outline_go_tun2socks.Intra.Tcp.{
  TcpSummary, TcpHandler, Handled, to_dns, handle_plain, handle_split, handle_retry, handle,
  filtered_port, report, report_retry, finish_forward, final_stats,
}
use outline_go_tun2socks.Intra.Tcp as Tcp

abbrev pub KeepsTcp : TcpHandler → TcpHandler → Type 0
KeepsTcp h h' =
    (h'.stores ≡ h.stores) × (h'.reporter_dns ≡ h.reporter_dns) × (h'.fakedns ≡ h.fakedns)

KeepsTcp-if :
    (b : Bool) (h x y : TcpHandler) → KeepsTcp h x → KeepsTcp h y → KeepsTcp h (if b then x else y)
KeepsTcp-if true h x y p q = p
KeepsTcp-if false h x y p q = q

handle_plain-KeepsTcp :
    (h : TcpHandler) (port before after : ℕ) (x : Dialer × Dialed)
    → KeepsTcp h (handle_plain h port before after x).0
handle_plain-KeepsTcp h port before after (d, failed e) = (refl, refl, refl)
handle_plain-KeepsTcp h port before after (d, connected c) = (refl, refl, refl)

handle_split-KeepsTcp :
    (h : TcpHandler) (before after : ℕ) (x : Dialer × SplitDialed)
    → KeepsTcp h (handle_split h before after x).0
handle_split-KeepsTcp h before after (d, Splitter.refused e) = (refl, refl, refl)
handle_split-KeepsTcp h before after (d, Splitter.dialed s) = (refl, refl, refl)

handle_retry-KeepsTcp :
    (h : TcpHandler) (before after : ℕ) (x : Dialer × RetrierDialed)
    → KeepsTcp h (handle_retry h before after x).0
handle_retry-KeepsTcp h before after (d, Retrying.refused e) = (refl, refl, refl)
handle_retry-KeepsTcp h before after (d, Retrying.dialed r) = (refl, refl, refl)

chosen :
    (b : Bool) (h : TcpHandler) (x y : TcpHandler × Handled)
    → KeepsTcp h x.0
    → KeepsTcp h y.0
    → KeepsTcp h (if b then x else y).0
chosen true h x y p q = p
chosen false h x y p q = q

pub KeepsTcp-handle :
    (target : TcpAddr) (before after : ℕ) (h : TcpHandler)
    → KeepsTcp h (handle target before after h).0
unfolding handle
KeepsTcp-handle target before after h =
    chosen (Tcp.is_dns h target) h _ _ (refl, refl, refl)
      (chosen (filtered_port target == 443) h _ _
        (chosen h.always_split_https h _ _
          (handle_split-KeepsTcp h before after (dial_with_split h.dialer target))
          (handle_retry-KeepsTcp h before after
            (dial_with_split_retry h.dialer target before after)))
        (handle_plain-KeepsTcp h (filtered_port target) before after (dial h.dialer target)))

report-KeepsTcp :
    (s : TcpSummary) (stats : RetryStats) (h : TcpHandler) → KeepsTcp h (report s stats h)
unfolding report
report-KeepsTcp s stats h =
    KeepsTcp-if (stats.split == 0) h _ _ (refl, refl, refl)
      (KeepsTcp-if h.reports_enabled h _ _ (refl, refl, refl) (refl, refl, refl))

report_retry-KeepsTcp :
    (s : TcpSummary) (stats : Option RetryStats) (h : TcpHandler)
    → KeepsTcp h (report_retry s stats h)
report_retry-KeepsTcp s none h = (refl, refl, refl)
report_retry-KeepsTcp s (some stats) h = report-KeepsTcp s stats h

pub KeepsTcp-finish_forward :
    (download upload seconds : ℕ) (stats : RetryStats) (s : TcpSummary) (h : TcpHandler)
    → KeepsTcp h (finish_forward download upload seconds stats s h)
unfolding finish_forward
KeepsTcp-finish_forward download upload seconds stats s h =
    let r = final_stats s.retry stats in
    let x : TcpSummary = record s {
      download_bytes = download;
      upload_bytes = upload;
      duration = seconds;
      retry = r;
    } in
    report_retry-KeepsTcp x r (record h { summaries = x ∷ h.summaries })

port_refl : (p : ℕ) → (p == p) ≡ true
port_refl p = ground arith

is_dns_here : (h : TcpHandler) (addr : TcpAddr) → h.fakedns ≡ addr → Tcp.is_dns h addr ≡ true
is_dns_here h addr at = rw (at, equal_refl addr.ip, port_refl addr.port) refl

pub handle_dns :
    (target : TcpAddr) (before after : ℕ) (h : TcpHandler)
    → h.fakedns ≡ target
    → (handle target before after h).1 ≡ to_dns h.stores
unfolding handle
handle_dns target before after h at =
    ap (λ (x : TcpHandler × Handled). x.1) (if-true _ _ (is_dns_here h target at))
