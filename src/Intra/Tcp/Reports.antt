-- ===== src/Intra/Tcp/Reports.antt =====
-- Which connections are reported.
use mathlib.Core.Path.{subst}
use outline_go_tun2socks.Common.{
  ℕ, ◌≡◌, ◌≢◌, ◌⊎◌, inl, inr, refl, Bool, false, ◌∷◌, Option, none, some, ltb, ◌==◌, if-true,
  if-false, Bool-cases, arith,
}
use outline_go_tun2socks.Net.Dialer.{TcpAddr}
use outline_go_tun2socks.Split.Retrier.{RetryStats}
use outline_go_tun2socks.Intra.Tcp.Routes.{Routed, handle_routes}
use outline_go_tun2socks.Intra.Tcp.{
  Remote, plain, splits, retries, TcpSummary, TcpHandler, forwards, is_dns, handle, report,
  finish_forward,
}

-- Either no report is made, or one is made of these stats and of this download.
abbrev pub ReportedOrNot : TcpHandler → ℕ → Option RetryStats → RetryStats → TcpHandler → Type 0
ReportedOrNot h download retry stats h' =
    (h'.reports ≡ h.reports)
    ⊎ ((stats.split ≢ 0)
        × (retry ≢ none)
        × (h'.reports
            ≡ record { sni = stats.sni; success = ltb 0 download; timed_out = stats.timeout }
              ∷ h.reports))

report-ReportedOrNot :
    (h : TcpHandler) (s : TcpSummary) (retry : Option RetryStats) (stats : RetryStats)
    → retry ≢ none
    → ReportedOrNot h s.download_bytes retry stats (report s stats h)
unfolding report
report-ReportedOrNot h s retry stats some_stats = elim (Bool-cases (stats.split == 0)) [
  | inl unsplit ↦ rw (if-true _ _ unsplit) (inl refl)
  | inr split ↦ rw (if-false _ _ split) (elim (Bool-cases h.reports_enabled) [
    | inl on ↦ rw (if-true _ _ on) (inr (λ e. ground (arith, e, split), some_stats, refl))
    | inr off ↦ rw (if-false _ _ off) (inl refl)
  ])
]

finish_forward-ReportedOrNot :
    (download upload seconds : ℕ) (stats : RetryStats) (s : TcpSummary) (retry : Option RetryStats)
    (h : TcpHandler)
    → s.retry ≡ retry
    → ReportedOrNot h download retry stats (finish_forward download upload seconds stats s h)
unfolding finish_forward
finish_forward-ReportedOrNot download upload seconds stats s none h e = rw e (inl refl)
finish_forward-ReportedOrNot download upload seconds stats s (some x) h e =
    let s' : TcpSummary = record s {
      download_bytes = download;
      upload_bytes = upload;
      duration = seconds;
      retry = some stats;
    } in
    rw e (
      report-ReportedOrNot (record h { summaries = s' ∷ h.summaries }) s' (some x) stats
        (λ n. cc n))

Routed-retry :
    (always : Bool) (target : TcpAddr) (remote : Remote) (s : TcpSummary)
    → Routed always target (forwards remote s)
    → s.retry ≢ none
    → (target.port ≡ 443) × (always ≡ false)
Routed-retry always target (plain c) s r n = absurd (n r.1)
Routed-retry always target (splits x) s r n = absurd (n r.2)
Routed-retry always target (retries x) s r n = (r.0, r.1)

-- When a connection that `Handle` forwards has ended, whatever was copied and whatever stats are left,
-- the reports are as they were; or the port is 443, the setting to split always was off, a retry did
-- split its segment, and there is one more report: the server's name and whether there was a timeout
-- are those of the stats, and it is a success if some byte was downloaded.
pub reports_only_retries :
    (target : TcpAddr) (before after download upload seconds : ℕ) (stats : RetryStats)
    (h : TcpHandler) (remote : Remote) (s : TcpSummary)
    → (handle target before after h).1 ≡ forwards remote s
    → let h' = (handle target before after h).0 in
      let h'' = finish_forward download upload seconds stats s h' in
      (h''.reports ≡ h'.reports)
      ⊎ ((target.port ≡ 443)
          × (h.always_split_https ≡ false)
          × (stats.split ≢ 0)
          × (h''.reports
              ≡ record { sni = stats.sni; success = ltb 0 download; timed_out = stats.timeout }
                ∷ h'.reports))
reports_only_retries target before after download upload seconds stats h remote s e =
    let (dns, other) = handle_routes target before after h in
    elim (finish_forward-ReportedOrNot download upload seconds stats s s.retry
      (handle target before after h).0 refl) [
        | inl same ↦ inl same
        | inr (split, some_stats, more) ↦ elim (Bool-cases (is_dns h target)) [
          | inl d ↦ absurd (cc (dns d, e))
          | inr d ↦
              let routed = subst (Routed h.always_split_https target) e (other d).1 in
              let (p, a) = Routed-retry h.always_split_https target remote s routed some_stats in
              inr (p, a, split, more)
        ]
      ]
