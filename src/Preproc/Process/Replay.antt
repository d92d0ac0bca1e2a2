-- ===== src/Preproc/Process/Replay.antt =====
-- What a run of the preprocessor leaves behind, for the two tables that `PreprocessedFile` records:
-- the event stream that replays the run, and the definitions that became symbols.
use hdl_kgraph.Base.{◌≡◌, refl, List, [], ◌∷◌, ◌++◌, Text, if_intro}
use hdl_kgraph.Preproc.{
  MacroDef, MacroEvent, define_event, undef_event, MacroTable, State, CharClasses,
}
use hdl_kgraph.Preproc.Table.{apply, replay}
use hdl_kgraph.Preproc.Define.{add_macro, undef_named}
use hdl_kgraph.Preproc.Includes.{Files, Options}
use hdl_kgraph.Preproc.Splice.{note_include, note_included}
use hdl_kgraph.Preproc.Process.{preprocess}
use hdl_kgraph.Preproc.Process.Stable.{IsRunStable, preprocess-keeps}

replay-append :
    (table : MacroTable) (es : List MacroEvent) (e : MacroEvent)
    → replay table (es ++ e ∷ []) ≡ apply (replay table es) e
unfolding replay
replay-append table [] e = refl
replay-append table (d ∷ es) e = replay-append (apply table d) es e

-- The table is what the recorded events make of the starting table.
abbrev IsReplayed : MacroTable → State → Type 0
IsReplayed start s = s.table ≡ replay start s.macro_events

-- What the event defines.
abbrev pub defined_by : List MacroEvent → List MacroDef
defined_by [] = []
defined_by (define_event macro ∷ es) = macro ∷ defined_by es
defined_by (undef_event name ∷ es) = defined_by es

defined_by-define :
    (es : List MacroEvent) (m : MacroDef)
    → defined_by (es ++ define_event m ∷ []) ≡ defined_by es ++ m ∷ []
defined_by-define [] m = refl
defined_by-define (define_event d ∷ es) m = rw (defined_by-define es m) refl
defined_by-define (undef_event n ∷ es) m = defined_by-define es m

defined_by-undef :
    (es : List MacroEvent) (n : Text) → defined_by (es ++ undef_event n ∷ []) ≡ defined_by es
defined_by-undef [] n = refl
defined_by-undef (define_event d ∷ es) n = rw (defined_by-undef es n) refl
defined_by-undef (undef_event m ∷ es) n = defined_by-undef es n

module _ (files : Files) (options : Options) where
  IsReplayed-stable :
      (start : MacroTable) → IsRunStable files options (λ f. Unit) (IsReplayed start)
  unfolding add_macro undef_named note_include note_included apply
  IsReplayed-stable start = record {
    on_warn = λ w s h. h;
    on_use = λ u s h. h;
    on_line = λ l o s b h. h;
    on_cond = λ fs s h. h;
    on_define = λ m s h. rw (replay-append start s.macro_events (define_event m)) (rw h refl);
    on_undef = λ n s h. rw (replay-append start s.macro_events (undef_event n)) (rw h refl);
    on_include = λ t f n r s h. h;
    on_spliced = λ p s w h. if_intro (IsReplayed start) _ _ _ h h;
    on_file = λ p w. tt;
    on_memo = λ t d s h. h;
  }

  -- The recorded definitions are those of the events.
  abbrev IsRecorded : State → Type 0
  IsRecorded s = s.macro_defs ≡ defined_by s.macro_events

  IsRecorded-stable : IsRunStable files options (λ f. Unit) IsRecorded
  unfolding add_macro undef_named note_include note_included
  IsRecorded-stable = record {
    on_warn = λ w s h. h;
    on_use = λ u s h. h;
    on_line = λ l o s b h. h;
    on_cond = λ fs s h. h;
    on_define = λ m s h. rw (defined_by-define s.macro_events m) (rw h refl);
    on_undef = λ n s h. rw (defined_by-undef s.macro_events n) h;
    on_include = λ t f n r s h. h;
    on_spliced = λ p s w h. if_intro IsRecorded _ _ _ h h;
    on_file = λ p w. tt;
    on_memo = λ t d s h. h;
  }

module _ (chars : CharClasses) (files : Files) (options : Options) where
  -- Replaying the recorded events on the table that a run started from gives the table that it
  -- left, and the recorded definitions are, in order, exactly those that the events define.
  pub preprocess-replays :
      (path : Text) (lines : List Text) (s : State)
      → let r = preprocess chars files options path lines s in
        (r.table ≡ replay s.table r.macro_events) × (r.macro_defs ≡ defined_by r.macro_events)
  unfolding replay
  preprocess-replays path lines s = (
    preprocess-keeps chars files options (λ f. Unit) (IsReplayed s.table)
        (IsReplayed-stable files options s.table) path lines s tt refl,
    preprocess-keeps chars files options (λ f. Unit) _ (IsRecorded-stable files options) path lines
        s tt refl,
  )
