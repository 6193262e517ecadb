-- ===== src/Runtime/Logs/Lines.antt =====
-- A pass over a log, against the text that it has read.
use mathlib.Core.Path.{subst}
use mathlib.Core.List.{append_assoc, append-nil}
use bugpot.Base.{
  not, Bool-cases, inl, inr, ℕ, Bool, true, false, List, [], ◌∷◌, ◌++◌, Result, ok, err, ◌==◌,
  if◌then◌else◌, ◌≡◌, refl, ap,
}
use bugpot.Base.Text.{Str, ends_with_char}
use bugpot.Runtime.Logs.{Tail, entry, report, drain}

-- The lines of a text, from a line that has begun: the entries, and the line begun last.
unfoldable pub cut : Str → Str → List Str × Str
cut line [] = ([], line)
cut line (c ∷ text) =
    let ended = cut [] text in
    let more = cut (line ++ c ∷ []) text in
    if c == b'\n' then (entry (line ++ c ∷ []) ++ ended.0, ended.1) else more

-- A read ends at the first end of a line, or at the end of the file.
abbrev pub IsRead : Str → Type 0
IsRead [] = Unit {0}
IsRead (c ∷ []) = Unit {0}
IsRead (c ∷ d ∷ text) = (c == b'\n' ≡ false) × IsRead (d ∷ text)

abbrev pub AllRead : List (Result Str Str) → Type 0
AllRead [] = Unit {0}
AllRead (err why ∷ reads) = AllRead reads
AllRead (ok text ∷ reads) = IsRead text × AllRead reads

-- The text of a pass, up to the end of the file or an error.
abbrev pub text_of : List (Result Str Str) → Str
text_of [] = []
text_of (err why ∷ reads) = []
text_of (ok [] ∷ reads) = []
text_of (ok (c ∷ text) ∷ reads) = (c ∷ text) ++ text_of reads

pub cut-append :
    (line s t : Str)
    → cut line (s ++ t) ≡ ((cut line s).0 ++ (cut (cut line s).1 t).0, (cut (cut line s).1 t).1)
unfolding cut
cut-append line [] t = refl
cut-append line (c ∷ s) t = elim (Bool-cases (c == b'\n')) [
  | inl e ↦ rw (e, cut) (simp (cut-append [] s t, append_assoc))
  | inr e ↦ rw (e, cut) (cut-append (line ++ c ∷ []) s t)
]

-- What a whole read adds to a line that has begun.
abbrev read_to : Bool → Str → List Str × Str
read_to true line = (entry line, [])
read_to false line = ([], line)

cut-read :
    (line : Str) (c : ℕ) (text : Str)
    → IsRead (c ∷ text)
    → cut line (c ∷ text) ≡ read_to (ends_with_char b'\n' (c ∷ text)) (line ++ c ∷ text)
unfolding cut
cut-read line c [] h = elim (Bool-cases (c == b'\n')) [
  | inl e ↦ rw (e, cut) (simp (append-nil))
  | inr e ↦ rw (e, cut) refl
]
cut-read line c (d ∷ text) h =
    rw (h.0, cut)
      (subst (λ l. cut (line ++ c ∷ []) (d ∷ text) ≡ read_to (ends_with_char b'\n' (d ∷ text)) l)
        (append_assoc line (c ∷ []) (d ∷ text)) (cut-read (line ++ c ∷ []) d text h.1))

ends_with_char-append :
    (e : ℕ) (line : Str) (c : ℕ) (text : Str)
    → ends_with_char e (line ++ c ∷ text) ≡ ends_with_char e (c ∷ text)
ends_with_char-append e [] c text = refl
ends_with_char-append e (d ∷ []) c text = refl
ends_with_char-append e (d ∷ f ∷ line) c text = ends_with_char-append e (f ∷ line) c text

-- Whether a pass reaches the end of the file.
abbrev pub at_end : List (Result Str Str) → Bool
at_end [] = false
at_end (err why ∷ reads) = false
at_end (ok [] ∷ reads) = true
at_end (ok (c ∷ text) ∷ reads) = at_end reads

abbrev drained : List (Result Str Str) → List Str × Str → Tail
drained reads p = record { emitted = p.0; line = p.1; is_over = not (at_end reads) }

-- A read, against what the rest of the pass gives from the line that it leaves.
after_read_lem :
    (reads : List (Result Str Str)) (line : Str) (b : Bool)
    → ((l : Str) → drain reads l ≡ drained reads (cut l (text_of reads)))
    → (if b then report (entry line) (drain reads []) else drain reads line)
      ≡ drained reads (
        (read_to b line).0 ++ (cut (read_to b line).1 (text_of reads)).0,
        (cut (read_to b line).1 (text_of reads)).1,
      )
after_read_lem reads line true rest = ap (report (entry line)) (rest [])
after_read_lem reads line false rest = rest line

pub drain_lem :
    (reads : List (Result Str Str)) (line : Str)
    → AllRead reads
    → drain reads line ≡ drained reads (cut line (text_of reads))
unfolding drain cut
drain_lem [] line h = refl
drain_lem (err why ∷ reads) line h = refl
drain_lem (ok [] ∷ reads) line h = refl
drain_lem (ok (c ∷ text) ∷ reads) line h =
    rw
      (
        ends_with_char-append b'\n' line c text,
        cut-append line (c ∷ text) (text_of reads),
        cut-read line c text h.0,
      )
      (after_read_lem reads (line ++ c ∷ text) (ends_with_char b'\n' (c ∷ text))
        (λ l. drain_lem reads l h.1))
