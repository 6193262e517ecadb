-- ===== src/Runtime/Logs.antt =====
-- crates/bugpot-runtime/src/logs.rs: `forward_log_file`. What the calls of the system give is a
-- parameter: the four of the set-up, and for each turn of the loop what each `read_line` appends, the
-- size of the file, the truncation, the seek, and whether the watch wakes the task. The report of a
-- truncation itself is left out.
pub mod Lines
pub mod Entries
pub mod Tests
use bugpot.Base.{
  ℕ, Bool, true, false, List, [], ◌∷◌, ◌++◌, ◌*◌, Result, ok, err, ltb, if◌then◌else◌,
}
use bugpot.Base.Text.{Str, trim_end, is_whitespace, is_empty, ends_with_char}

abbrev pub max_log_bytes : ℕ
max_log_bytes = 1024 * 1024

-- One turn of the loop. A read of no text is the end of the file.
pub record Turn : Type 0 where
  pub reads : List (Result Str Str)
  pub metadata : Result ℕ Str
  pub truncate : Result (Unit {0}) Str
  pub seek : Result (Unit {0}) Str
  pub wakes : Bool

pub record Setup : Type 0 where
  pub init : Result (Unit {0}) Str
  pub add_watch : Result (Unit {0}) Str
  pub into_event_stream : Result (Unit {0}) Str
  pub open_log : Result (Unit {0}) Str

-- The text of a line that has ended, without its end; an empty one is not reported.
abbrev unless_empty : Str → List Str
unless_empty text = if is_empty text then [] else text ∷ []

unfoldable pub entry : Str → List Str
unfolding trim_end is_whitespace
entry line = unless_empty (trim_end is_whitespace line)

-- What a pass has reported and the line that it has begun; `none` of the line when the task is over.
pub record Tail : Type 0 where
  pub emitted : List Str
  pub line : Str
  pub is_over : Bool

abbrev pub report : List Str → Tail → Tail
report entries t = record t { emitted = entries ++ t.emitted }

-- After a read: an ended line is reported.
abbrev after_read : (Str → Tail) → Str → Tail
after_read rest line =
    if ends_with_char b'\n' line then report (entry line) (rest []) else rest line

-- The inner loop.
unfoldable pub drain : List (Result Str Str) → Str → Tail
unfolding entry
drain [] line = record { emitted = []; line = line; is_over = true }
drain (err why ∷ reads) line = record { emitted = []; line = line; is_over = true }
drain (ok [] ∷ reads) line = record { emitted = []; line = line; is_over = false }
drain (ok (c ∷ text) ∷ reads) line = after_read (drain reads) (line ++ c ∷ text)

-- The bound on the size: the line that is kept, and whether the task is over.
abbrev sought : Result (Unit {0}) Str → Str → Str × Bool
sought (err why) line = (line, true)
sought (ok _) line = ([], false)

abbrev pub truncated : Turn → Result (Unit {0}) Str → Str → Str × Bool
truncated turn (err why) line = (line, false)
truncated turn (ok _) line = sought turn.seek line

abbrev bound_by : Turn → Result ℕ Str → Str → Str × Bool
bound_by turn (err why) line = (line, false)
bound_by turn (ok len) line =
    if ltb max_log_bytes len then truncated turn turn.truncate line else (line, false)

unfoldable pub bound_size : Turn → Str → Str × Bool
bound_size turn line = bound_by turn turn.metadata line

abbrev pub next_turn : (Str → List Str) → Bool → Str × Bool → List Str
next_turn rest wakes (line, true) = []
next_turn rest true (line, false) = rest line
next_turn rest false (line, false) = []

abbrev after_drain : (Str → List Str) → Turn → Tail → List Str
after_drain rest turn t =
    t.emitted ++ (if t.is_over then [] else next_turn rest turn.wakes (bound_size turn t.line))

-- The outer loop: what is reported in these turns.
unfoldable pub follow : List Turn → Str → List Str
unfolding drain bound_size
follow [] line = []
follow (turn ∷ turns) line = after_drain (follow turns) turn (drain turn.reads line)

abbrev pub if_ok : Result (Unit {0}) Str → List Str → List Str
if_ok (err why) reported = []
if_ok (ok _) reported = reported

unfoldable pub forward_log_file : Setup → List Turn → List Str
unfolding follow
forward_log_file s turns =
    if_ok s.init
      (if_ok s.add_watch (if_ok s.into_event_stream (if_ok s.open_log (follow turns []))))
