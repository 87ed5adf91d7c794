-- ===== src/Intra/Tcp/Forwarding/Moved.antt =====
-- The bytes that the two copies of a connection move.
use outline_go_tun2socks.Common.{ℕ, ◌≡◌, refl, sym, ap, ◌∙◌, List, [], ◌∷◌, Option, none, some}
use outline_go_tun2socks.Split.Retrier.{RetryStats}
use outline_go_tun2socks.Intra.Tcp.{TcpSummary}
use outline_go_tun2socks.Intra.Tcp.Forwarding.{
  Direction, copies, closes_first, closes_second, joins, ended, Forwarding, Event, uploads,
  downloads, meets, on_upload, on_download, on_meet, step, run,
}

-- What the copy of the first step of the upload moved, and of the download.
abbrev pub upload_of : List Event → Option ℕ
upload_of [] = none
upload_of (uploads n ∷ events) = some n
upload_of (downloads n ∷ events) = upload_of events
upload_of (meets seconds stats ∷ events) = upload_of events

abbrev pub download_of : List Event → Option ℕ
download_of [] = none
download_of (downloads n ∷ events) = some n
download_of (uploads n ∷ events) = download_of events
download_of (meets seconds stats ∷ events) = download_of events

-- The bytes that a direction has moved, once its copy is over.
abbrev pub moved : Direction → Option ℕ
moved copies = none
moved (closes_first n) = some n
moved (closes_second n) = some n
moved (joins n) = some n
moved (ended n) = some n

abbrev or_else : Option ℕ → Option ℕ → Option ℕ
or_else none b = b
or_else (some a) b = some a

or_else-some : (a b : Option ℕ) (n : ℕ) → or_else (or_else a (some n)) b ≡ or_else a (some n)
or_else-some none b n = refl
or_else-some (some a) b n = refl

or_else-none : (a : Option ℕ) → or_else a none ≡ a
or_else-none none = refl
or_else-none (some a) = refl

on_upload-moved :
    (n : ℕ) (u : Direction) (f : Forwarding)
    → f.upload ≡ u
    → let f' = on_upload n u f in
      (moved f'.upload ≡ or_else (moved f.upload) (some n)) × (f'.download ≡ f.download)
on_upload-moved n copies f e = (ap (λ x. or_else (moved x) (some n)) (sym e), refl)
on_upload-moved n (closes_first bytes) f e = (ap (λ x. or_else (moved x) (some n)) (sym e), refl)
on_upload-moved n (closes_second bytes) f e = (ap (λ x. or_else (moved x) (some n)) (sym e), refl)
on_upload-moved n (joins bytes) f e =
    (ap moved e ∙ ap (λ x. or_else (moved x) (some n)) (sym e), refl)
on_upload-moved n (ended bytes) f e =
    (ap moved e ∙ ap (λ x. or_else (moved x) (some n)) (sym e), refl)

on_download-moved :
    (n : ℕ) (d : Direction) (f : Forwarding)
    → f.download ≡ d
    → let f' = on_download n d f in
      (moved f'.download ≡ or_else (moved f.download) (some n)) × (f'.upload ≡ f.upload)
on_download-moved n copies f e = (ap (λ x. or_else (moved x) (some n)) (sym e), refl)
on_download-moved n (closes_first bytes) f e = (ap (λ x. or_else (moved x) (some n)) (sym e), refl)
on_download-moved n (closes_second bytes) f e = (ap (λ x. or_else (moved x) (some n)) (sym e), refl)
on_download-moved n (joins bytes) f e =
    (ap moved e ∙ ap (λ x. or_else (moved x) (some n)) (sym e), refl)
on_download-moved n (ended bytes) f e =
    (ap moved e ∙ ap (λ x. or_else (moved x) (some n)) (sym e), refl)

on_meet-moved :
    (summary : TcpSummary) (seconds : ℕ) (stats : RetryStats) (u d : Direction) (f : Forwarding)
    → f.upload ≡ u
    → f.download ≡ d
    → let f' = on_meet summary seconds stats u d f in
      (moved f'.upload ≡ moved f.upload) × (moved f'.download ≡ moved f.download)
on_meet-moved summary seconds stats (joins up) (joins down) f e e' =
    (sym (ap moved e), sym (ap moved e'))
on_meet-moved summary seconds stats _ _ f e e' = (refl, refl)

pub moved-run :
    (summary : TcpSummary) (events : List Event) (f : Forwarding)
    → let f' = run summary events f in
      (moved f'.upload ≡ or_else (moved f.upload) (upload_of events))
      × (moved f'.download ≡ or_else (moved f.download) (download_of events))
unfolding run step
moved-run summary [] f =
    (sym (or_else-none (moved f.upload)), sym (or_else-none (moved f.download)))
moved-run summary (uploads n ∷ events) f =
    let (here, other) = on_upload-moved n f.upload f refl in
    let (up, down) = moved-run summary events (on_upload n f.upload f) in
    (
      up
          ∙ ap (λ a. or_else a (upload_of events)) here
          ∙ or_else-some (moved f.upload) (upload_of events) n,
      down ∙ ap (λ d. or_else (moved d) (download_of events)) other,
    )
moved-run summary (downloads n ∷ events) f =
    let (here, other) = on_download-moved n f.download f refl in
    let (up, down) = moved-run summary events (on_download n f.download f) in
    (
      up ∙ ap (λ d. or_else (moved d) (upload_of events)) other,
      down
          ∙ ap (λ a. or_else a (download_of events)) here
          ∙ or_else-some (moved f.download) (download_of events) n,
    )
moved-run summary (meets seconds stats ∷ events) f =
    let (here, here') = on_meet-moved summary seconds stats f.upload f.download f refl refl in
    let (up, down) =
      moved-run summary events (on_meet summary seconds stats f.upload f.download f) in
    (
      up ∙ ap (λ a. or_else a (upload_of events)) here,
      down ∙ ap (λ a. or_else a (download_of events)) here',
    )
