-- ===== src/Runtime/Logs/Entries.antt =====
-- What is reported of a log, against the text that was read of it.
use mathlib.Core.List.{append_assoc}
use bugpot.Base.{
  Result-cases, not, inl, inr, ℕ, Bool, true, false, List, [], ◌∷◌, ◌++◌, Result, ok, err,
  if◌then◌else◌, ◌≡◌, refl, sym, ap, ltb, ◌&&◌, ◌&&◌, ◌&&◌, ◌&&◌, ◌&&◌, ◌∙◌, ◌&&◌, ◌&&◌, ◌||◌, ◌||◌,
}
use bugpot.Base.Text.{Str}
use bugpot.Runtime.Logs.{
  Turn, truncated, max_log_bytes, if_ok, forward_log_file, Setup, bound_size, next_turn, follow,
}
use bugpot.Runtime.Logs.Lines.{cut, cut-append, AllRead, text_of, at_end, drain_lem}

abbrev pub succeeds : Result (Unit {0}) Str → Bool
succeeds (err why) = false
succeeds (ok _) = true

abbrev is_oversize : Result ℕ Str → Bool
is_oversize (err why) = false
is_oversize (ok len) = ltb max_log_bytes len

abbrev is_truncated : Turn → Bool
is_truncated turn = is_oversize turn.metadata && succeeds turn.truncate

-- The line kept after the check of the size, and whether the seek has ended the task.
abbrev pub kept : Bool → Bool → Str → Str × Bool
kept t s line = (if t && s then [] else line, t && not s)

truncated_lem :
    (turn : Turn) (line : Str) (t s : Result (Unit {0}) Str) (over : Bool)
    → turn.seek ≡ s
    → (if over then truncated turn t line else (line, false))
      ≡ kept (over && succeeds t) (succeeds s) line
truncated_lem turn line t s false h = refl
truncated_lem turn line (err why) s true h = refl
truncated_lem turn line (ok _) (err why) true h = rw h refl
truncated_lem turn line (ok _) (ok _) true h = rw h refl

bound_size_lem :
    (turn : Turn) (line : Str)
    → bound_size turn line ≡ kept (is_truncated turn) (succeeds turn.seek) line
unfolding bound_size
bound_size_lem turn line = elim (Result-cases turn.metadata) [
  | inl (len, at) ↦
      rw (at, bound_size)
        (truncated_lem turn line turn.truncate turn.seek (ltb max_log_bytes len) refl)
  | inr (why, at) ↦ rw (at, bound_size) refl
]

-- The task goes on after a turn.
abbrev goes_on : Turn → Bool
goes_on turn = at_end turn.reads && ((not (is_truncated turn) || succeeds turn.seek) && turn.wakes)

abbrev prepend : Str → List Str → List Str
prepend s [] = s ∷ []
prepend s (t ∷ texts) = (s ++ t) ∷ texts

-- The text that is read of the file, cut where the file was truncated, up to the end of the task.
abbrev pub texts_of : List Turn → List Str
texts_of [] = [] ∷ []
texts_of (turn ∷ turns) =
    let text = text_of turn.reads in
    let rest = texts_of turns in
    if goes_on turn
    then (if is_truncated turn && succeeds turn.seek then text ∷ rest else prepend text rest)
    else text ∷ []

-- The entries of all the texts, each cut into lines by itself.
abbrev pub entries_of : Str → List Str → List Str
entries_of line [] = []
entries_of line (text ∷ texts) = (cut line text).0 ++ entries_of [] texts

entries_of-prepend :
    (line s : Str) (texts : List Str)
    → entries_of line (prepend s texts) ≡ (cut line s).0 ++ entries_of (cut line s).1 texts
entries_of-prepend line s [] = refl
entries_of-prepend line s (t ∷ texts) =
    rw (cut-append line s t)
      (append_assoc (cut line s).0 (cut (cut line s).1 t).0 (entries_of [] texts))

abbrev AllTurns : List Turn → Type 0
AllTurns [] = Unit {0}
AllTurns (turn ∷ turns) = AllRead turn.reads × AllTurns turns

step :
    (a t s w : Bool) (emitted : List Str) (line text : Str) (texts : List Str)
    (rest : Str → List Str) (E : List Str → List Str)
    → E (text ∷ []) ≡ emitted ++ []
    → E (text ∷ texts) ≡ emitted ++ rest []
    → E (prepend text texts) ≡ emitted ++ rest line
    → emitted ++ (if not a then [] else next_turn rest w (kept t s line))
      ≡ E (
          if a && ((not t || s) && w)
          then (if t && s then text ∷ texts else prepend text texts)
          else text ∷ [])
step false t s w emitted line text texts rest E last cleared goes = sym last
step true true true true emitted line text texts rest E last cleared goes = sym cleared
step true true true false emitted line text texts rest E last cleared goes = sym last
step true true false w emitted line text texts rest E last cleared goes = sym last
step true false s true emitted line text texts rest E last cleared goes = sym goes
step true false s false emitted line text texts rest E last cleared goes = sym last

follow_lem :
    (turns : List Turn) (line : Str)
    → AllTurns turns
    → follow turns line ≡ entries_of line (texts_of turns)
unfolding follow cut
follow_lem [] line h = refl
follow_lem (turn ∷ turns) line h =
    let text = text_of turn.reads in
    let c = cut line text in
    rw (drain_lem turn.reads line h.0, bound_size_lem turn c.1)
      (step (at_end turn.reads) (is_truncated turn) (succeeds turn.seek) turn.wakes c.0 c.1 text
        (texts_of turns) (follow turns) (entries_of line) refl
        (ap (λ r. c.0 ++ r) (sym (follow_lem turns [] h.1)))
        (entries_of-prepend line text (texts_of turns)
          ∙ ap (λ r. c.0 ++ r) (sym (follow_lem turns c.1 h.1))))

abbrev pub is_set_up : Setup → Bool
is_set_up s =
    succeeds s.init
    && (succeeds s.add_watch && (succeeds s.into_event_stream && succeeds s.open_log))

-- However the text of the log is cut into reads and turns, the task reports the lines of the text
-- that it has read, without the white space at their ends and without those that are blank: the text
-- between two truncations is cut into lines by itself, a line that has not ended is held back, and a
-- line that a truncation interrupts is dropped. Without its set-up it reports nothing. This supposes
-- that a read stops at the first end of a line.
pub forward_log_file_lem :
    (s : Setup) (turns : List Turn)
    → AllTurns turns
    → forward_log_file s turns ≡ (if is_set_up s then entries_of [] (texts_of turns) else [])
unfolding forward_log_file
forward_log_file_lem s turns h =
    rw (follow_lem turns [] h) (go s.init s.add_watch s.into_event_stream s.open_log)
  where
    go :
        (a b c d : Result (Unit {0}) Str)
        → if_ok a (if_ok b (if_ok c (if_ok d (entries_of [] (texts_of turns))))) ≡ (
            if succeeds a && (succeeds b && (succeeds c && succeeds d))
            then entries_of [] (texts_of turns)
            else [])
    go (err why) b c d = refl
    go (ok _) (err why) c d = refl
    go (ok _) (ok _) (err why) d = refl
    go (ok _) (ok _) (ok _) (err why) = refl
    go (ok _) (ok _) (ok _) (ok _) = refl
