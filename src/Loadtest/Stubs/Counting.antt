-- ===== src/Loadtest/Stubs/Counting.antt =====
-- What /__stats of loadtest/stubs/main.go tells about an origin.
use dealer.Base.{
  ℕ, ◌+◌, ◌<◌, ◌≡◌, refl, ap, ◌∙◌, Bool, true, false, not, List, [], ◌∷◌, String, arith, ℤ, pos,
  add64-pos, two63, length, inl, inr, Bool-cases,
}
use dealer.Http.Header as Header
use dealer.Http.Request.{Request}
use dealer.Http.Writer.{Writer, write, with_header}
use dealer.Loadtest.Stubs.{Origin, stats_handler, Event, new_origin, accepting, request, serve, run}

abbrev one_if : Bool → ℕ
one_if true = 1
one_if false = 0

-- The connections that were accepted.
abbrev pub accepted_in : List Event → ℕ
accepted_in [] = 0
accepted_in (accepting accepted ∷ es) = one_if accepted + accepted_in es
accepted_in (request r w ∷ es) = accepted_in es

-- The requests that were not for the statistics.
abbrev pub served_in : (Request → Bool) → List Event → ℕ
served_in is_stats [] = 0
served_in is_stats (accepting accepted ∷ es) = served_in is_stats es
served_in is_stats (request r w ∷ es) = one_if (not (is_stats r)) + served_in is_stats es

module _ (encode_counts : List (String × ℤ) → String) (encode : List (String × String) → String)
    (is_stats : Request → Bool) where
  abbrev with_counts : ℕ → ℕ → Origin → Origin
  with_counts a n o = record o { accepts = pos a; requests = pos n }

  serve-served :
      (r : Request) (w : Writer) (o : Origin) (a n : ℕ)
      → is_stats r ≡ false
      → n + 1 < two63
      → (serve encode_counts encode is_stats r (with_counts a n o) w).0 ≡ with_counts a (n + 1) o
  unfolding serve
  serve-served r w o a n served h = rw (served, add64-pos n 1 h) refl

  run-counts :
      (es : List Event) (o : Origin) (a n : ℕ)
      → a + n + length es < two63
      → run encode_counts encode is_stats es (with_counts a n o)
        ≡ with_counts (a + accepted_in es) (n + served_in is_stats es) o
  unfolding run
  run-counts [] o a n h = ground arith
  run-counts (accepting true ∷ es) o a n h =
      rw (add64-pos a 1 (omega arith)) (ground (arith, run-counts es o (a + 1) n))
  run-counts (accepting false ∷ es) o a n h = ground (arith, run-counts es o a n)
  run-counts (request r w ∷ es) o a n h = elim (Bool-cases (is_stats r)) [
    | inl stats ↦ rw stats (ground (arith, run-counts es o a n))
    | inr served ↦
        ap (run encode_counts encode is_stats es) (serve-served r w o a n served (omega arith))
        ∙ rw served (ground (arith, run-counts es o a (n + 1)))
  ]

  -- The statistics of an origin tell how many connections were accepted and how many requests were
  -- served, those for the statistics not counted, since the origin started: whatever came in
  -- which order, of fewer than 2 ^ 63 events; and asking for them changes nothing.
  pub serve-stats :
      (es : List Event) (name addr : String) (latency : ℤ) (status : ℕ) (r : Request) (w : Writer)
      → length es < two63
      → is_stats r ≡ true
      → let o = run encode_counts encode is_stats es (new_origin name addr latency status) in
        serve encode_counts encode is_stats r o w ≡ (
          o,
          write
              (encode_counts (
                ("accepts", pos (accepted_in es)) ∷ ("requests", pos (served_in is_stats es)) ∷ []))
              (with_header (Header.put "Content-Type" "application/json") w),
        )
  unfolding serve
  serve-stats es name addr latency status r w h s =
      unfold stats_handler in
      rw (s, run-counts es (new_origin name addr latency status) 0 0 (omega arith)) (ground arith)
