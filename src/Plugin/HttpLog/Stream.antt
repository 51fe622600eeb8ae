-- ===== src/Plugin/HttpLog/Stream.antt =====
-- What http_log of gateway/internal/plugin/http_log.go writes, and when it reaches the file.
use dealer.Base.{
  ℕ, zero, suc, ◌≡◌, refl, sym, ap, ◌∙◌, inl, inr, true, List, [], ◌∷◌, ◌++◌, String, is_empty,
  if◌then◌else◌, leb, length, codes, Bool-cases,
}
use mathlib.Core.List.{append_assoc, append-nil}
use dealer.Plugin.HttpLog.{
  BufWriter, new_writer, take, drop, flush_buffer, room, write_rest, is_blank, write_string,
  write_byte, write_id, log, buffer_size,
}

-- All that was logged, in order: what reached the file and what waits in the buffer.
abbrev pub stream : BufWriter → List ℕ
stream b = b.written ++ b.buffered

take-drop : (n : ℕ) (s : List ℕ) → take n s ++ drop n s ≡ s
take-drop zero s = refl
take-drop (suc n) [] = refl
take-drop (suc n) (c ∷ s) = ap (λ t. c ∷ t) (take-drop n s)

stream-flush_buffer : (b : BufWriter) → stream (flush_buffer b) ≡ stream b
unfolding flush_buffer
stream-flush_buffer b = append-nil (b.written ++ b.buffered)

stream-write_rest : (s : List ℕ) (b : BufWriter) → stream (write_rest s b) ≡ b.written ++ s
unfolding write_rest
stream-write_rest s b = elim (Bool-cases (leb (length s) buffer_size)) [
  | inl fits ↦ rw fits
  | inr long ↦ rw long (append-nil (b.written ++ s))
]

blank_iff : (s : List ℕ) → is_blank s ≡ true → s ≡ []
blank_iff [] h = refl
blank_iff (c ∷ s) h = cc

-- What was there, what filled the buffer and the rest.
spliced :
    (b : BufWriter) (s : List ℕ)
    → b.written ++ (b.buffered ++ take (room b) s) ++ drop (room b) s ≡ stream b ++ s
spliced b s =
    ap (λ t. t ++ drop (room b) s) (sym (append_assoc b.written b.buffered (take (room b) s)))
    ∙ append_assoc (stream b) (take (room b) s) (drop (room b) s)
    ∙ ap (λ t. stream b ++ t) (take-drop (room b) s)

stream-write_string : (s : List ℕ) (b : BufWriter) → stream (write_string s b) ≡ stream b ++ s
unfolding write_string
stream-write_string s b = elim (Bool-cases (leb (length s) (room b))) [
  | inl fits ↦ rw fits (sym (append_assoc b.written b.buffered s))
  | inr long ↦ elim (Bool-cases (is_blank b.buffered)) [
    | inl blank ↦ rw (long, blank) (rw (blank_iff b.buffered blank) (simp append-nil))
    | inr waiting ↦
        rw (long, waiting)
          (stream-write_rest (drop (room b) s) (
              flush_buffer
                (record { written = b.written; buffered = b.buffered ++ take (room b) s }))
            ∙ spliced b s)
  ]
]

stream-write_byte : (c : ℕ) (b : BufWriter) → stream (write_byte c b) ≡ stream b ++ c ∷ []
unfolding write_byte
stream-write_byte c b = elim (Bool-cases (leb buffer_size (length b.buffered))) [
  | inl full ↦ rw full
  | inr fits ↦ rw fits (sym (append_assoc b.written b.buffered (c ∷ [])))
]

-- The line of a request.
abbrev pub line : String → String → String → String → List ℕ
line time method path request_id =
    codes time
    ++ 32 ∷ []
    ++ codes method
    ++ 32 ∷ []
    ++ codes path
    ++ (if is_empty request_id then [] else codes " request_id=" ++ codes request_id)
    ++ 10 ∷ []

stream-write_id :
    (id : String) (b : BufWriter)
    → stream (write_id id b)
      ≡ stream b ++ (if is_empty id then [] else codes " request_id=" ++ codes id)
unfolding write_id
stream-write_id id b = elim (Bool-cases (is_empty id)) [
  | inl none ↦ rw none (sym (append-nil (stream b)))
  | inr some ↦ rw some (
      stream-write_string (codes id) (write_string (codes " request_id=") b)
      ∙ ap (λ t. t ++ codes id) (stream-write_string (codes " request_id=") b)
      ∙ append_assoc (stream b) (codes " request_id=") (codes id))
]

-- A step that adds its text to the stream, behind steps that are described already.
then_written :
    (text : List ℕ) {out before sofar : List ℕ}
    → out ≡ before ++ text
    → before ≡ sofar
    → out ≡ sofar ++ text
then_written text step earlier = step ∙ ap (λ t. t ++ text) earlier

regroup :
    (s a b c d e f g : List ℕ)
    → s ++ a ++ b ++ c ++ d ++ e ++ f ++ g ≡ s ++ (a ++ b ++ c ++ d ++ e ++ f ++ g)
regroup s a b c d e f g = simp append_assoc

stream-log :
    (time method path id : String) (b : BufWriter)
    → stream (log time method path id b) ≡ stream b ++ line time method path id
unfolding log
stream-log time method path id b =
    let d1 = write_string (codes time) b in
    let d2 = write_byte 32 d1 in
    let d3 = write_string (codes method) d2 in
    let d4 = write_byte 32 d3 in
    let d5 = write_string (codes path) d4 in
    then_written (10 ∷ []) (stream-write_byte 10 (write_id id d5)) (
      then_written (if is_empty id then [] else codes " request_id=" ++ codes id)
        (stream-write_id id d5)
        (then_written (codes path) (stream-write_string (codes path) d4) (
          then_written (32 ∷ []) (stream-write_byte 32 d3) (
            then_written (codes method) (stream-write_string (codes method) d2) (
              then_written (32 ∷ []) (stream-write_byte 32 d1)
                (stream-write_string (codes time) b))))))
    ∙ regroup (stream b) (codes time) (32 ∷ []) (codes method) (32 ∷ []) (codes path)
        (if is_empty id then [] else codes " request_id=" ++ codes id) (10 ∷ [])

-- What happens to a logger: a request that it logs, and a flush, by the ticker or on shutdown.
pub data Event : Type 0 where
  request : String → String → String → String → Event
  flushed : Event

abbrev pub after_event : Event → BufWriter → BufWriter
after_event (request time method path id) b = log time method path id b
after_event flushed b = flush_buffer b

-- The writer after the events, the first one first.
unfoldable pub run : List Event → BufWriter → BufWriter
unfolding log flush_buffer
run [] b = b
run (e ∷ es) b = run es (after_event e b)

abbrev pub lines : List Event → List ℕ
lines [] = []
lines (request time method path id ∷ es) = line time method path id ++ lines es
lines (flushed ∷ es) = lines es

stream-run : (es : List Event) (b : BufWriter) → stream (run es b) ≡ stream b ++ lines es
unfolding run
stream-run [] b = sym (append-nil (stream b))
stream-run (request time method path id ∷ es) b =
    stream-run es (log time method path id b)
    ∙ ap (λ t. t ++ lines es) (stream-log time method path id b)
    ∙ append_assoc (stream b) (line time method path id) (lines es)
stream-run (flushed ∷ es) b =
    stream-run es (flush_buffer b) ∙ ap (λ t. t ++ lines es) (stream-flush_buffer b)

-- After any requests and flushes a last flush leaves nothing in the buffer: the file has the line of
-- every request, whole, once and in their order, whatever the lengths of the lines.
pub flush_buffer-run :
    (es : List Event)
    → flush_buffer (run es new_writer) ≡ record { written = lines es; buffered = [] }
unfolding flush_buffer
flush_buffer-run es = ap (λ t. record { written = t; buffered = [] }) (stream-run es new_writer)
