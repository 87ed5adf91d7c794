-- ===== src/Intra/Tcp/Forwarding/Told.antt =====
-- What the listener and the SNI reporter learn at the end of a connection.
use mathlib.Core.Option
use outline_go_tun2socks.Common.{
  ℕ, ◌≡◌, ◌≢◌, ◌⊎◌, inl, inr, refl, ap, ◌∙◌, true, false, ◌∷◌, Option, none, some, Bool-cases,
  if-true, if-false, ltb, ◌==◌, arith,
}
use outline_go_tun2socks.Split.Retrier.{RetryStats}
use outline_go_tun2socks.Intra.Tcp.{TcpSummary, TcpHandler, report, finish_forward}

-- The summary with the bytes and the time; its stats, where it has any, are what the retrier left.
abbrev pub summed : TcpSummary → ℕ → ℕ → ℕ → RetryStats → TcpSummary
summed summary down up seconds stats = record summary {
  download_bytes = down;
  upload_bytes = up;
  duration = seconds;
  retry = Option.map (λ _. stats) summary.retry;
}

-- The listener is told once. There is one report if a retry was possible and a retry took place, and
-- reports are enabled, and none otherwise.
pub record Told (summary : TcpSummary) (down up : ℕ) (before after : TcpHandler) : Type 0 where
  pub seconds : ℕ
  pub stats : RetryStats
  pub told : after.summaries ≡ summed summary down up seconds stats ∷ before.summaries
  pub reported :
      summary.retry ≢ none
      → stats.split ≢ 0
      → before.reports_enabled ≡ true
      → after.reports
        ≡ record { sni = stats.sni; success = ltb 0 down; timed_out = stats.timeout }
          ∷ before.reports
  pub unreported :
      (summary.retry ≡ none) ⊎ (stats.split ≡ 0) ⊎ (before.reports_enabled ≡ false)
      → after.reports ≡ before.reports

report-summaries :
    (s : TcpSummary) (stats : RetryStats) (h : TcpHandler)
    → (report s stats h).summaries ≡ h.summaries
unfolding report
report-summaries s stats h = elim (Bool-cases (stats.split == 0)) [
  | inl e ↦ ap (λ (x : TcpHandler). x.summaries) (if-true _ _ e)
  | inr e ↦ elim (Bool-cases h.reports_enabled) [
    | inl on ↦ ap (λ (x : TcpHandler). x.summaries) (if-false _ _ e ∙ if-true _ _ on)
    | inr off ↦ ap (λ (x : TcpHandler). x.summaries) (if-false _ _ e ∙ if-false _ _ off)
  ]
]

report-reports :
    (s : TcpSummary) (stats : RetryStats) (h : TcpHandler)
    → stats.split ≢ 0
    → h.reports_enabled ≡ true
    → (report s stats h).reports
      ≡ record { sni = stats.sni; success = ltb 0 s.download_bytes; timed_out = stats.timeout }
        ∷ h.reports
unfolding report
report-reports s stats h retried on = elim (Bool-cases (stats.split == 0)) [
  | inl e ↦ absurd (retried (ground arith))
  | inr e ↦ ap (λ (x : TcpHandler). x.reports) (if-false _ _ e ∙ if-true _ _ on)
]

report_nothing :
    (s : TcpSummary) (stats : RetryStats) (h : TcpHandler)
    → (stats.split ≡ 0) ⊎ (h.reports_enabled ≡ false)
    → (report s stats h).reports ≡ h.reports
unfolding report
report_nothing s stats h why = elim (Bool-cases (stats.split == 0)) [
  | inl e ↦ ap (λ (x : TcpHandler). x.reports) (if-true _ _ e)
  | inr e ↦ elim why [
    | inl zero_ ↦ absurd (ground arith)
    | inr off ↦ ap (λ (x : TcpHandler). x.reports) (if-false _ _ e ∙ if-false _ _ off)
  ]
]

finish_with :
    (down up seconds : ℕ) (stats : RetryStats) (summary : TcpSummary) (h : TcpHandler)
    (o : Option RetryStats)
    → summary.retry ≡ o
    → Told summary down up h (finish_forward down up seconds stats summary h)
unfolding finish_forward
finish_with down up seconds stats summary h none e = rw e (record {
  seconds = seconds;
  stats = stats;
  told = refl;
  reported = λ some_. absurd (some_ refl);
  unreported = λ _. refl;
})
finish_with down up seconds stats summary h (some s) e =
    let s' = summed (record summary { retry = some s }) down up seconds stats in
    let h' : TcpHandler = record h { summaries = s' ∷ h.summaries } in
    rw e (record {
      seconds = seconds;
      stats = stats;
      told = report-summaries s' stats h';
      reported = λ _ retried on. report-reports s' stats h' retried on;
      unreported = λ why. elim why [
        | inl none_ ↦ absurd (cc none_)
        | inr other ↦ report_nothing s' stats h' other
      ];
    })

pub finish_forward-Told :
    (down up seconds : ℕ) (stats : RetryStats) (summary : TcpSummary) (h : TcpHandler)
    → Told summary down up h (finish_forward down up seconds stats summary h)
finish_forward-Told down up seconds stats summary h =
    finish_with down up seconds stats summary h summary.retry refl
