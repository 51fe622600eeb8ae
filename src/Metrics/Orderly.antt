-- ===== src/Metrics/Orderly.antt =====
-- What the status layer of gateway/internal/metrics/metrics.go holds while a handler answers.
use dealer.Base.{
  ℕ, ◌≡◌, refl, ap, sym, subst, ◌∙◌, Bool, true, false, Option, none, some, List, [], ◌∷◌, String,
  if◌then◌else◌, Bool-cases, inl, inr, Option-cases,
}
use dealer.Http.Header.{Header}
use dealer.Http.Writer.{
  Conn, Writer, Layer, status_writer, write_header_at, write_at, flush_at, hijack_at, write_header,
  write, flush, hijack,
}
use dealer.Metrics.Answers.{
  WriterOp, perform, perform_all, Phase, is_informational, advance, is_complete, and_then,
  orderly_from, set_header, set_status, put_chunk, push_out, take_over, silent, informed, answered,
  taken,
}
use dealer.Metrics.Marks.{
  Mark, mark, mark_status, mark-write_header_at, mark-write_at, mark-flush_at, hijacked-hijack_at,
}

-- A phase, the status on top and the connection fit together.
abbrev pub Fits : Phase → ℕ → Conn → Type 0
Fits silent status c = (status ≡ 200) × (mark c ≡ (none, false))
Fits informed status c = mark c ≡ (none, false)
Fits answered status c = mark c ≡ (some status, false)
Fits taken status c = (status ≡ 101) × (c.hijacked ≡ true)

-- The status writer stands on top of other layers.
abbrev pub Topped : Phase → Writer → Type 0
Topped p w =
    (status : ℕ) × (below : List Layer) × (w.layers ≡ status_writer status ∷ below)
    × Fits p status w.conn

pub moved : {p q : Phase} (w : Writer) → some p ≡ some q → Topped p w → Topped q w
moved {p} {q} w e t = subst (λ s. Topped s w) {x = p} {y = q} (cc) t

module _ (below : List Layer) (c : Conn) where
  abbrev pub over : ℕ → Writer
  over status = record { layers = status_writer status ∷ below; conn = c }

  -- A status on a connection without a final one.
  pub set_status-Topped :
      (code status : ℕ) {q : Phase}
      → mark c ≡ (none, false)
      → (if is_informational code then informed else answered) ≡ q
      → Topped q (perform (set_status code) (over status))
  unfolding perform write_header write_header_at
  set_status-Topped code status open_still e =
      let marked = mark-write_header_at code below c ∙ ap (mark_status code) open_still in
      elim (Bool-cases (is_informational code)) [
        | inl early ↦
            rw (← e)
              (rw early (code, (write_header_at code below c).layers, refl, marked ∙ (rw early)))
        | inr final ↦
            rw (← e)
              (rw final (code, (write_header_at code below c).layers, refl, marked ∙ (rw final)))
      ]

  pub put_chunk-Topped :
      (chunk : String) (status : ℕ) (m : Mark)
      → mark c ≡ m
      → mark_status 200 m ≡ (some status, false)
      → Topped answered (perform (put_chunk chunk) (over status))
  unfolding perform write write_at
  put_chunk-Topped chunk status m e done = (
    status,
    (write_at chunk below c).layers,
    refl,
    mark-write_at chunk below c ∙ ap (mark_status 200) e ∙ done,
  )

  pub push_out-Topped :
      (status : ℕ) (m : Mark)
      → mark c ≡ m
      → mark_status 200 m ≡ (some status, false)
      → Topped answered (perform push_out (over status))
  unfolding perform flush flush_at
  push_out-Topped status m e done = (
    status,
    (flush_at below c).layers,
    refl,
    mark-flush_at below c ∙ ap (mark_status 200) e ∙ done,
  )

  pub take_over-Topped : (status : ℕ) → Topped taken (perform take_over (over status))
  unfolding perform hijack hijack_at
  take_over-Topped status =
      (101, (hijack_at below c).layers, refl, (refl, hijacked-hijack_at below c))

  pub set_header-Topped :
      (f : Header → Header) (status : ℕ) (p : Phase)
      → Fits p status c
      → Topped p (perform (set_header f) (over status))
  unfolding perform
  set_header-Topped f status silent h = (status, below, refl, h)
  set_header-Topped f status informed h = (status, below, refl, h)
  set_header-Topped f status answered h = (status, below, refl, h)
  set_header-Topped f status taken h = (status, below, refl, h)

  -- One operation of an orderly handler.
  pub perform-over-Topped :
      (op : WriterOp) (p : Phase) (status : ℕ) {q : Phase}
      → advance op p ≡ some q
      → Fits p status c
      → Topped q (perform op (over status))
  perform-over-Topped (set_header f) p status e h =
      moved (perform (set_header f) (over status)) e (set_header-Topped f status p h)
  perform-over-Topped (set_status code) silent status e h = set_status-Topped code status h.1 (cc)
  perform-over-Topped (set_status code) informed status e h = set_status-Topped code status h (cc)
  perform-over-Topped (set_status code) answered status e h = cc
  perform-over-Topped (set_status code) taken status e h = cc
  perform-over-Topped (put_chunk chunk) silent status e h =
      moved (perform (put_chunk chunk) (over status)) e
        (put_chunk-Topped chunk status (none, false) h.1 (rw h.0))
  perform-over-Topped (put_chunk chunk) informed status e h = cc
  perform-over-Topped (put_chunk chunk) answered status e h =
      moved (perform (put_chunk chunk) (over status)) e
        (put_chunk-Topped chunk status (some status, false) h refl)
  perform-over-Topped (put_chunk chunk) taken status e h = cc
  perform-over-Topped push_out silent status e h =
      moved (perform push_out (over status)) e (push_out-Topped status (none, false) h.1 (rw h.0))
  perform-over-Topped push_out informed status e h = cc
  perform-over-Topped push_out answered status e h =
      moved (perform push_out (over status)) e (push_out-Topped status (some status, false) h refl)
  perform-over-Topped push_out taken status e h = cc
  perform-over-Topped take_over silent status e h =
      moved (perform take_over (over status)) e (take_over-Topped status)
  perform-over-Topped take_over informed status e h =
      moved (perform take_over (over status)) e (take_over-Topped status)
  perform-over-Topped take_over answered status e h = cc
  perform-over-Topped take_over taken status e h = cc

pub perform-Topped :
    (op : WriterOp) (p : Phase) (w : Writer) {q : Phase}
    → advance op p ≡ some q
    → Topped p w
    → Topped q (perform op w)
perform-Topped op p w {q} e (status, below, layered, fits) =
    subst (λ ls. Topped q (perform op (record { layers = ls; conn = w.conn }))) (sym layered)
      (perform-over-Topped below w.conn op p status e fits)

pub refused_step : (rest : Phase → Bool) {o : Option Phase} → o ≡ none → and_then rest o ≡ true → ⊥
refused_step rest {o = none} e h = cc
refused_step rest {o = some q} e h = cc

pub taken_step :
    (rest : Phase → Bool) {o : Option Phase} {q : Phase}
    → o ≡ some q
    → and_then rest o ≡ true
    → rest q ≡ true
taken_step rest {o = none} e h = cc
taken_step rest {o = some p} {q} e h = subst (λ s. rest s ≡ true) {x = p} {y = q} (cc) h

pub perform_all-Topped :
    (ops : List WriterOp) (p : Phase) (w : Writer)
    → orderly_from ops p ≡ true
    → Topped p w
    → (q : Phase) × (is_complete q ≡ true) × Topped q (perform_all ops w)
unfolding perform_all
perform_all-Topped [] p w h t = (p, h, t)
perform_all-Topped (op ∷ ops) p w h t = elim (Option-cases (advance op p)) [
  | inl refused ↦ absurd (refused_step (orderly_from ops) refused h)
  | inr (q, e) ↦
      perform_all-Topped ops q (perform op w) (taken_step (orderly_from ops) e h)
        (perform-Topped op p w e t)
]
