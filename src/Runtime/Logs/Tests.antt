-- ===== src/Runtime/Logs/Tests.antt =====
-- Runs of the tail of a log.
use bugpot.Base.{true, [], ◌∷◌, ok, err, refl, ◌≡◌, if◌then◌else◌, Bool, not, ◌&&◌, ◌==◌, arith}
use bugpot.Base.Text.{Str, codes}
use bugpot.Runtime.Logs.{Turn, Setup, forward_log_file}
use bugpot.Runtime.Logs.Lines.{IsRead}
use bugpot.Runtime.Logs.Entries.{is_set_up, entries_of, texts_of, forward_log_file_lem}

abbrev sound : Setup
sound = record { init = ok tt; add_watch = ok tt; into_event_stream = ok tt; open_log = ok tt }

-- A line in two reads, a blank line, and a line that has not ended.
abbrev first_turn : Turn
first_turn = record {
  reads =
      ok (codes "Hello, w")
      ∷ ok (codes "orld\n")
      ∷ ok (codes " \n")
      ∷ ok (codes "half")
      ∷ ok []
      ∷ [];
  metadata = ok 20;
  truncate = ok tt;
  seek = ok tt;
  wakes = true;
}

-- The file is above the cap and is truncated.
abbrev second_turn : Turn
second_turn = record first_turn {
  reads = ok (codes " a\n") ∷ ok (codes "lost") ∷ ok [] ∷ [];
  metadata = ok 2000000;
}

abbrev third_turn : Turn
third_turn = record first_turn {
  reads = ok (codes "new\n") ∷ err (codes "invalid UTF-8") ∷ ok (codes "late\n") ∷ [];
}

abbrev stops : Str → Bool
stops [] = true
stops (c ∷ []) = true
stops (c ∷ d ∷ text) = not (c == b'\n') && stops (d ∷ text)

stops-IsRead : (text : Str) → stops text ≡ true → IsRead text
stops-IsRead [] h = tt
stops-IsRead (c ∷ []) h = tt
stops-IsRead (c ∷ d ∷ text) h = (ground (arith, h), stops-IsRead (d ∷ text) (ground (arith, h)))

forward_log_file_lem_example :
    forward_log_file sound (first_turn ∷ second_turn ∷ third_turn ∷ []) ≡ (
      if is_set_up sound
      then entries_of [] (texts_of (first_turn ∷ second_turn ∷ third_turn ∷ []))
      else [])
forward_log_file_lem_example =
    forward_log_file_lem sound (first_turn ∷ second_turn ∷ third_turn ∷ []) (
      (
        stops-IsRead (codes "Hello, w") refl,
        (
          stops-IsRead (codes "orld\n") refl,
          (stops-IsRead (codes " \n") refl, (stops-IsRead (codes "half") refl, (tt, tt))),
        ),
      ),
      (
        (stops-IsRead (codes " a\n") refl, (stops-IsRead (codes "lost") refl, (tt, tt))),
        ((stops-IsRead (codes "new\n") refl, (stops-IsRead (codes "late\n") refl, tt)), tt),
      ),
    )

-- The text that a truncation interrupts is dropped, and an error of a read ends the task.
reported :
    forward_log_file sound (first_turn ∷ second_turn ∷ third_turn ∷ third_turn ∷ [])
    ≡ codes "Hello, world" ∷ codes "half a" ∷ codes "new" ∷ []
unfolding forward_log_file
reported = refl

disabled :
    forward_log_file (record sound { add_watch = err (codes "no space") }) (first_turn ∷ []) ≡ []
unfolding forward_log_file
disabled = refl
