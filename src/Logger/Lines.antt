-- ===== src/Logger/Lines.antt =====
-- The lines that a log file gets.
use mathlib.Core.List.{append_assoc, append-nil}
use libgossip.Base.{
  ◌≡◌, sym, ap, ◌∙◌, inl, inr, true, some, List, [], ◌∷◌, ◌++◌, arith, ltb, if◌then◌else◌, Bytes,
  Bool-cases, if_true, if_false,
}
use libgossip.Logger.{
  level_number, file_text, append_file, log_line, screen_prefix, log, LogLevel, Logger,
}

file_text-append_file :
    (path more text : Bytes) (files : List (Bytes × Bytes))
    → file_text path files ≡ some text
    → file_text path (append_file path more files) ≡ some (text ++ more)
unfolding file_text append_file
file_text-append_file path more text [] e = absurd (ground (arith, e))
file_text-append_file path more text ((p, t) ∷ rest) e =
    ground (arith, e, file_text-append_file path more text rest)

-- A call of Log: the time, the level and the message.
abbrev pub Entry : Type 0
Entry = Bytes × LogLevel × Bytes

pub log_all : List Entry → Logger → Logger
log_all [] l = l
log_all (e ∷ es) l = log_all es (log e.0 e.1 e.2 l)

-- The lines of the entries at the level or above, in their order.
pub lines_from : LogLevel → List Entry → Bytes
lines_from level [] = []
lines_from level (e ∷ es) =
    let rest = lines_from level es in
    if ltb (level_number e.1) (level_number level) then rest else log_line e.0 e.1 e.2 ++ rest

-- The text of an open log file after calls of Log is the text before, and then, in the order of the
-- calls, the lines of those at the minimal level or above.
log_all_lem :
    (es : List Entry) (l : Logger) {text : Bytes}
    → l.opened ≡ true
    → file_text l.log_file_path l.files ≡ some text
    → file_text l.log_file_path (log_all es l).files ≡ some (text ++ lines_from l.min_level es)
unfolding log_all lines_from log
log_all_lem [] l {text} opened e = rw (append-nil text) e
log_all_lem (x ∷ es) l {text} opened e =
    let line = log_line x.0 x.1 x.2 in
    let rest = lines_from l.min_level es in
    let seen = λ (l' : Logger). file_text l.log_file_path (log_all es l').files in
    elim (Bool-cases (ltb (level_number x.1) (level_number l.min_level))) [
      | inl low ↦
          ap seen (if_true _ _ low)
          ∙ log_all_lem es l opened e
          ∙ ap (λ ls. some (text ++ ls)) (sym (if_true rest (line ++ rest) low))
      | inr high ↦
          ap seen (if_false _ _ high)
          ∙ log_all_lem es
              (record l {
                files = if l.opened then append_file l.log_file_path line l.files else l.files;
                screen = l.screen ++ (screen_prefix ++ line);
              })
              opened
              (ap (file_text l.log_file_path) (if_true _ _ opened)
                ∙ file_text-append_file l.log_file_path line text l.files e)
          ∙ ap some (append_assoc text line rest)
          ∙ ap (λ ls. some (text ++ ls)) (sym (if_false rest (line ++ rest) high))
    ]
