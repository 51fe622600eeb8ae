-- ===== src/Gateway/Flushing/Losses.antt =====
-- Which log lines of gateway/gateway.go reach the file.
use dealer.Base.{
  ℕ, zero, suc, ◌==◌, ==_iff, ◌≡◌, ◌≢◌, refl, ap, sym, subst, ◌∙◌, Bool, true, false, List, [], ◌∷◌,
  ◌++◌, All, Option, none, some, String, length, ◌<◌, get_elem?, get_elem?-set_self,
  get_elem?-set_ne, lt_of_get_elem?, Bool-cases, inl, inr, arith, if◌then◌else◌,
}
use mathlib.Core.List.{append_assoc}
use mathlib.Core.Option as Option
use dealer.Gateway.Flushing.{
  Generation, Loggers, cancel, flush_loggers, flusher, first_log_flusher, start_log_flusher, close,
  tick_at, logged, logged_by, Step, request, flush_tick, replaced_tick, reload, closed, step, run,
}
use dealer.Plugin.HttpLog.{BufWriter, new_writer, flush_buffer, log}
use dealer.Plugin.HttpLog.Stream as Stream
use dealer.Plugin.HttpLog.Stream.{Event, flushed, lines, flush_buffer-run}

-- What the logger at a position sees of the steps, given whether its goroutine is cancelled.
abbrev pub events_at : ℕ → Bool → List Step → List Event
events_at i off [] = []
events_at i off (request k time method path id ∷ ss) =
    if k == i then Stream.request time method path id ∷ events_at i off ss else events_at i off ss
events_at i off (flush_tick ∷ ss) = if off then events_at i off ss else flushed ∷ events_at i off ss
events_at i off (replaced_tick n ∷ ss) = events_at i off ss
events_at i off (reload loggers ∷ ss) = events_at i off ss
events_at i off (closed ∷ ss) = flushed ∷ events_at i true ss

abbrev pub is_no_reload : Step → Bool
is_no_reload (reload loggers) = false
is_no_reload s = true

flush_loggers-get_elem? :
    (bs : List BufWriter) (i : ℕ) {b : BufWriter}
    → get_elem? bs i ≡ some b
    → get_elem? (flush_loggers bs) i ≡ some (flush_buffer b)
unfolding flush_loggers
flush_loggers-get_elem? [] i h = cc
flush_loggers-get_elem? (c ∷ bs) zero h = ap (λ o. Option.map flush_buffer o) h
flush_loggers-get_elem? (c ∷ bs) (suc i) h = flush_loggers-get_elem? bs i h

logged_by_self :
    (write : BufWriter → BufWriter) (bs : List BufWriter) (i : ℕ) (o : Option BufWriter)
    {b : BufWriter}
    → o ≡ some b
    → i < length bs
    → get_elem? (logged_by i write o bs) i ≡ some (write b)
logged_by_self write bs i none e h = cc
logged_by_self write bs i (some c) e h =
    get_elem?-set_self bs i (write c) h ∙ ap (λ o. Option.map write o) e

logged_by-ne :
    (write : BufWriter → BufWriter) (bs : List BufWriter) (k i : ℕ) (o : Option BufWriter)
    → k ≢ i
    → get_elem? (logged_by k write o bs) i ≡ get_elem? bs i
logged_by-ne write bs k i none h = refl
logged_by-ne write bs k i (some c) h = get_elem?-set_ne bs (write c) h

module _ (time method path id : String) (bs : List BufWriter) where
  logged_self :
      (i : ℕ) {b : BufWriter}
      → get_elem? bs i ≡ some b
      → get_elem? (logged i time method path id bs) i ≡ some (log time method path id b)
  logged_self i h =
      logged_by_self (log time method path id) bs i (get_elem? bs i) h (lt_of_get_elem? bs i h)

  logged_ne : (k i : ℕ) → k ≢ i → get_elem? (logged k time method path id bs) i ≡ get_elem? bs i
  logged_ne k i h = logged_by-ne (log time method path id) bs k i (get_elem? bs k) h

-- The logger at a position after steps without a reload.
run-at :
    (ss : List Step) (g : Loggers) (i : ℕ) {b : BufWriter}
    → All (λ s. is_no_reload s ≡ true) ss
    → get_elem? g.current.loggers i ≡ some b
    → get_elem? (run ss g).current.loggers i
      ≡ some (Stream.run (events_at i g.current.cancelled ss) b)
unfolding run step close flusher Stream.run
run-at [] g i _ h = h
run-at (request k time method path id ∷ ss) g i {b} (_, hs) h = elim (Bool-cases (k == i)) [
  | inl same ↦ rw same (
      run-at ss _ i hs (
        subst
          (λ j.
            get_elem? (logged j time method path id g.current.loggers) i
            ≡ some (log time method path id b))
          (sym ((==_iff k i).0 same)) (logged_self time method path id g.current.loggers i h)))
  | inr other ↦
      rw other
        (run-at ss _ i hs (logged_ne time method path id g.current.loggers k i (ground arith) ∙ h))
]
run-at (flush_tick ∷ ss) g i (_, hs) h = elim (Bool-cases g.current.cancelled) [
  | inl off ↦ rw off (run-at ss (record g { current = cancel g.current }) i hs h)
  | inr on ↦ rw on (
      run-at ss
        (record g {
          current = record { loggers = flush_loggers g.current.loggers; cancelled = false };
        })
        i hs (flush_loggers-get_elem? g.current.loggers i h))
]
run-at (replaced_tick n ∷ ss) g i (_, hs) h =
    run-at ss (record g { replaced = tick_at n g.replaced }) i hs h
run-at (reload loggers ∷ ss) g i (bad, hs) h = absurd (cc)
run-at (closed ∷ ss) g i (_, hs) h =
    run-at ss (close g) i hs (flush_loggers-get_elem? g.current.loggers i h)

run-append : (ss ts : List Step) (g : Loggers) → run (ss ++ ts) g ≡ run ts (run ss g)
unfolding run
run-append [] ts g = refl
run-append (s ∷ ss) ts g = run-append ss ts (step s g)

-- Take an http_log instance whose file and buffer are empty, and any requests and ticks of the
-- flushers with no hot reload between them. After Close the file holds the lines of the requests that
-- it logged, in their order and with nothing missing, and the buffer is empty.
pub run-closed :
    (ss : List Step) (g : Loggers) (i : ℕ)
    → All (λ s. is_no_reload s ≡ true) ss
    → get_elem? g.current.loggers i ≡ some new_writer
    → get_elem? (run (ss ++ closed ∷ []) g).current.loggers i
      ≡ some (record { written = lines (events_at i g.current.cancelled ss); buffered = [] })
unfolding run step close Stream.run
run-closed ss g i hs h =
    ap (λ (x : Loggers). get_elem? x.current.loggers i) (run-append ss (closed ∷ []) g)
    ∙ flush_loggers-get_elem? (run ss g).current.loggers i (run-at ss g i hs h)
    ∙ ap some (flush_buffer-run (events_at i g.current.cancelled ss))

abbrev IsCancelled : Generation → Type 0
IsCancelled gen = gen.cancelled ≡ true

tick_at-cancelled : (n : ℕ) (gens : List Generation) → All IsCancelled gens → tick_at n gens ≡ gens
unfolding tick_at flusher
tick_at-cancelled n [] h = refl
tick_at-cancelled zero (gen ∷ gens) h = rw h.0 refl
tick_at-cancelled (suc n) (gen ∷ gens) h = ap (λ rest. gen ∷ rest) (tick_at-cancelled n gens h.1)

-- Only the current goroutine runs, whatever the steps.
step-IsCancelled :
    (s : Step) (g : Loggers) → All IsCancelled g.replaced → All IsCancelled (step s g).replaced
unfolding step start_log_flusher close
step-IsCancelled (request k time method path id) g h = h
step-IsCancelled flush_tick g h = h
step-IsCancelled (replaced_tick n) g h =
    subst (All IsCancelled) (sym (tick_at-cancelled n g.replaced h)) h
step-IsCancelled (reload loggers) g h = (refl, h)
step-IsCancelled closed g h = h

run-IsCancelled :
    (ss : List Step) (g : Loggers)
    → All IsCancelled g.replaced
    → All IsCancelled (run ss g).replaced
unfolding run
run-IsCancelled [] g h = h
run-IsCancelled (s ∷ ss) g h = run-IsCancelled ss (step s g) (step-IsCancelled s g h)

-- Replaced generations whose goroutines are cancelled stay as they are.
run-replaced :
    (ss : List Step) (g : Loggers)
    → All IsCancelled g.replaced
    → (newer : List Generation) × ((run ss g).replaced ≡ newer ++ g.replaced)
unfolding run step start_log_flusher close
run-replaced [] g h = ([], refl)
run-replaced (request i time method path id ∷ ss) g h = run-replaced ss _ h
run-replaced (flush_tick ∷ ss) g h = run-replaced ss _ h
run-replaced (replaced_tick n ∷ ss) g h =
    let same = tick_at-cancelled n g.replaced h in
    let (newer, e) =
      run-replaced ss (record g { replaced = tick_at n g.replaced })
        (subst (All IsCancelled) (sym same) h) in
    (newer, e ∙ ap (λ gens. newer ++ gens) same)
run-replaced (reload loggers ∷ ss) g h =
    let (newer, e) = run-replaced ss (start_log_flusher loggers g) (refl, h) in
    (
      newer ++ cancel g.current ∷ [],
      e ∙ sym (append_assoc newer (cancel g.current ∷ []) g.replaced),
    )
run-replaced (closed ∷ ss) g h = run-replaced ss _ h

-- In any run of a gateway from its start, the http_log instances that a hot reload replaces are never
-- flushed again: the reload cancels their goroutine, and whatever comes later, ticks of any
-- goroutine, further reloads and Close too, each of them has in its file and in its buffer what it
-- had at the reload, so the lines in its buffer are lost. The conditions: a cancelled goroutine takes
-- no tick that was still pending, and no request that came before the reload is still in flight.
pub run-unflushed :
    (first loggers : List BufWriter) (before after : List Step)
    → let g = run before (first_log_flusher first) in
      (newer : List Generation) × ((run
          (before ++ reload loggers ∷ after)
          (first_log_flusher first)).replaced
        ≡ newer ++ (cancel g.current ∷ g.replaced))
unfolding run step start_log_flusher first_log_flusher
run-unflushed first loggers before after =
    let g = run before (first_log_flusher first) in
    let (newer, e) =
      run-replaced after (start_log_flusher loggers g)
        (refl, run-IsCancelled before (first_log_flusher first) tt) in
    (
      newer,
      ap (λ (x : Loggers). x.replaced)
            (run-append before (reload loggers ∷ after) (first_log_flusher first))
          ∙ e,
    )
