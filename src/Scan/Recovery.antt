-- ===== src/Scan/Recovery.antt =====
-- `ParserService.process_file` of agent/services/parser_service.py when the commit of a scan fails
-- after its events were stored, and the scan is tried again.
use mathlib.Core.Path.{subst}
use atm_monitoring_agent.Prelude.{
  ℕ, suc, ◌+◌, ◌<◌, ◌≡◌, Bool, true, false, List, [], ◌∷◌, ◌++◌, Option, some, length, arith, refl,
  sym, ap, ◌∙◌, ◌==◌,
}
use atm_monitoring_agent.ParserModels.{Text}
use atm_monitoring_agent.Database.{Db}
use atm_monitoring_agent.CircuitBreaker.{CircuitBreaker, closed, can_execute, record_failure}
use atm_monitoring_agent.FileUtils.{bytes, read_from, read_appended_lines, max_bytes}
use atm_monitoring_agent.FileUtils.Reading.{
  universal, concat, universal-not_empty, utf8_pos, size_cons,
}
use atm_monitoring_agent.FileUtils.Growth.{
  size-append, read_attempts-opens, read_appended_lines-whole,
}
use atm_monitoring_agent.EjParser.Parse.{parse_lines}
use atm_monitoring_agent.Processor.{process_result}
use atm_monitoring_agent.Processor.Calm.{IsCalm}
use atm_monitoring_agent.EjParser.Dated.{AllDated}
use atm_monitoring_agent.Scan.Again.{parse_lines_again}
use atm_monitoring_agent.Scan.Sync.{
  IsSynced, load_state-grown, get_file_state-key, advance-key, advance-IsSynced,
  get_file_state-put_file_state,
}
use atm_monitoring_agent.Scan.{
  AgentFileState, get_file_state, Attempt, Scan, Step, returned, retried, no_failure,
  database_after, before_processing, put_file_state, unless_empty, unless_retried,
  on_database_error, advance, parse_and_store, try_once, scan_loop, process_file,
}

-- the lines behind `c` of the journal `content`
abbrev pub new_lines : Text → Text → List Text
new_lines content c = (read_from false content (length (bytes c))).0

-- The lines do not depend on where `f.tell()` stops.
read_from-lines :
    (behind : Bool) (content : Text) (offset : ℕ)
    → (read_from behind content offset).0 ≡ (read_from false content offset).0
unfolding read_from
read_from-lines behind content offset = refl

read_appended_lines-opens :
    (locked : ℕ → Bool) (behind : Bool) (content : Text) (offset k : ℕ)
    → k < 5
    → locked k ≡ false
    → read_appended_lines locked behind content offset ≡ read_from behind content offset
unfolding read_appended_lines
read_appended_lines-opens locked behind content offset k h o =
    read_attempts-opens 5 0 k locked behind content offset h (ap locked (omega arith) ∙ o)

unless_empty_lem :
    (x : ℕ) (xs : Text) (lines : List Text) (nothing something : Step)
    → concat lines ≡ universal (x ∷ xs)
    → unless_empty lines nothing something ≡ something
unless_empty_lem x xs [] nothing something l = absurd (universal-not_empty x xs (sym l))
unless_empty_lem x xs (line ∷ lines) nothing something l = refl

module _ (hash : List ℕ → Text) (atm_id : ℕ) (path : Text) where
  -- An attempt on the grown journal that does not fail before the processing.
  try_once-grown :
      (attempt : ℕ) (c : Text) (x : ℕ) (xs : Text) (s : AgentFileState) (a : Attempt) (k : ℕ)
      (scan : Scan)
      → get_file_state atm_id path scan.states ≡ some s
      → IsSynced hash c s
      → 0 < length (bytes c)
      → a.content ≡ c ++ x ∷ xs
      → length (bytes (x ∷ xs)) < max_bytes
      → a.readable ≡ true
      → k < 5
      → a.locked k ≡ false
      → ((d o e : Step) → before_processing a.failure d o e ≡ e)
      → try_once hash attempt atm_id path a scan
        ≡ parse_and_store hash attempt atm_id a s
            (new_lines (c ++ x ∷ xs) c)
            (length (bytes (c ++ x ∷ xs)))
            scan
  unfolding try_once
  try_once-grown attempt c x xs s a k scan g y p e small r h o pass =
      let z = size-append c (x ∷ xs) in
      let w = utf8_pos x in
      let v = size_cons x xs in
      let offset = y.offset_lem in
      let more : (length (bytes (c ++ x ∷ xs)) == length (bytes c)) ≡ false =
        ground (arith, z, w, v) in
      let (l, n) = read_appended_lines-whole a.locked a.behind c (x ∷ xs) k h o small in
      let q = read_appended_lines-opens a.locked a.behind (c ++ x ∷ xs) (length (bytes c)) k h o in
      let same = read_from-lines a.behind (c ++ x ∷ xs) (length (bytes c)) in
      let l' : concat (new_lines (c ++ x ∷ xs) c) ≡ universal (x ∷ xs) =
        subst (λ t. concat t ≡ universal (x ∷ xs)) (ap (λ t. t.0) q ∙ same) l in
      let n' : (read_from a.behind (c ++ x ∷ xs) (length (bytes c))).1
          ≡ length (bytes (c ++ x ∷ xs)) =
        subst (λ t. t.1 ≡ length (bytes (c ++ x ∷ xs))) q n in
      simp (load_state-grown hash atm_id path c (x ∷ xs) s a scan.states g y p e r) (
        simp (e, offset, more, q, n', same)
          (pass _ _ _ ∙ unless_empty_lem x xs (new_lines (c ++ x ∷ xs) c) _ _ l'))

failed_once :
    (b : CircuitBreaker) (now checked : ℕ)
    → b.state ≡ closed
    → b.failure_count + 1 < b.failure_threshold
    → ((can_execute (record_failure b now).0 checked).0 ≡ true)
      × ((can_execute (record_failure b now).0 checked).1.state ≡ closed)
unfolding can_execute record_failure
failed_once b now checked shut few = ground arith

module _ (hash : List ℕ → Text) (atm_id : ℕ) (path : Text) where
  -- A scan whose commit fails: the events are stored, the file state is not, and it is tried again.
  parse_and_store-fails :
      (attempt : ℕ) (s : AgentFileState) (a : Attempt) (lines : List Text) (offset : ℕ)
      (scan : Scan)
      → a.failure ≡ database_after
      → scan.breaker.state ≡ closed
      → scan.breaker.failure_count + 1 < scan.breaker.failure_threshold
      → let result = parse_lines a.line_now lines s.file_name in
        (next : Scan) × (parse_and_store hash attempt atm_id a s lines offset scan ≡ retried next)
        × (next.db
            ≡ (process_result atm_id result.events result.cassette_snapshots a.events scan.db).0)
        × (next.states ≡ scan.states)
  unfolding parse_and_store on_database_error
  parse_and_store-fails attempt s a lines offset scan f shut few =
      let (allowed, still) = failed_once scan.breaker a.now a.checked shut few in
      simp (f, allowed) (_, refl, refl, refl)

  -- A scan that is committed at the second attempt.
  parse_and_store-commits :
      (s : AgentFileState) (a : Attempt) (lines : List Text) (offset : ℕ) (scan : Scan)
      → a.failure ≡ no_failure
      → let result = parse_lines a.line_now lines s.file_name in
        (next : Scan) × (parse_and_store hash 1 atm_id a s lines offset scan ≡ returned true next)
        × (next.db
            ≡ (process_result atm_id result.events result.cassette_snapshots a.events scan.db).0)
        × (next.states ≡ put_file_state (advance hash a offset result.events s) scan.states)
  unfolding parse_and_store
  parse_and_store-commits s a lines offset scan f = simp f (_, refl, refl, refl)

two_steps :
    (t u : Step) (mid next : Scan) (again then_again : Scan → Option Step)
    → t ≡ retried mid
    → again mid ≡ unless_retried u then_again
    → u ≡ returned true next
    → unless_retried t again ≡ some (returned true next)
two_steps t u mid next again then_again e h f =
    ap (λ z. unless_retried z again) e ∙ h ∙ ap (λ z. unless_retried z then_again) f

two_attempts :
    (hash : List ℕ → Text) (atm_id : ℕ) (path : Text) (fuel now : ℕ) (attempts : ℕ → Attempt)
    (scan mid next : Scan)
    → scan.breaker.state ≡ closed
    → try_once hash 0 atm_id path (attempts 0) scan ≡ retried mid
    → try_once hash 1 atm_id path (attempts 1) mid ≡ returned true next
    → process_file hash (suc (suc fuel)) true now atm_id path attempts scan
      ≡ some (returned true next)
unfolding process_file scan_loop can_execute
two_attempts hash atm_id path fuel now attempts scan mid next shut e f = simp shut (
    two_steps (try_once hash 0 atm_id path (attempts 0) scan)
      (try_once hash 1 atm_id path (attempts 1) mid) mid next _ _ e refl f)

-- What an attempt on the grown journal needs from the file system.
pub record IsReadable (content : Text) (a : Attempt) : Type 0 where
  pub content_lem : a.content ≡ content
  pub hash_lem : a.readable ≡ true
  pub try : ℕ
  pub try_lem : try < 5
  pub locked_lem : a.locked try ≡ false

-- The scan that was tried again: its file state is that of the whole journal, and the tables are as
-- `first` has them, which is what the first attempt stored.
pub record IsRepeated (hash : List ℕ → Text) (atm_id : ℕ) (path content : Text) (first : Db)
    (next : Scan) : Type 0 where
  pub state : AgentFileState
  pub state_lem : get_file_state atm_id path next.states ≡ some state
  pub synced_lem : IsSynced hash content state
  pub events_lem : next.db.events ≡ first.events
  pub history_lem : next.db.history ≡ first.history
  pub live_lem : next.db.live ≡ first.live

-- A journal that was read up to its end has grown by a text that is not empty and is below 10 MiB.
-- The headers in it have valid dates. The first attempt stores all events undisturbed, but the
-- database fails at the commit of the file state, on a closed breaker that stays below its
-- threshold; the second attempt on the same journal does not fail, whatever the server does to its
-- events. Then the scan returns true with the file state of the whole journal, and the second
-- attempt has stored nothing twice: events, snapshots and live status are those that the first
-- attempt left.
pub process_file-IsRepeated :
    (hash : List ℕ → Text) (atm_id : ℕ) (path : Text) (c : Text) (x : ℕ) (xs : Text)
    (s : AgentFileState) (fuel now : ℕ) (attempts : ℕ → Attempt) (scan : Scan)
    → scan.breaker.state ≡ closed
    → scan.breaker.failure_count + 1 < scan.breaker.failure_threshold
    → get_file_state atm_id path scan.states ≡ some s
    → IsSynced hash c s
    → 0 < length (bytes c)
    → length (bytes (x ∷ xs)) < max_bytes
    → IsReadable (c ++ x ∷ xs) (attempts 0)
    → IsReadable (c ++ x ∷ xs) (attempts 1)
    → (attempts 0).failure ≡ database_after
    → (attempts 1).failure ≡ no_failure
    → AllDated (new_lines (c ++ x ∷ xs) c)
    → ((i : ℕ) → IsCalm ((attempts 0).events i))
    → let result = parse_lines (attempts 0).line_now (new_lines (c ++ x ∷ xs) c) s.file_name in
      let first =
        (process_result atm_id result.events result.cassette_snapshots
          (attempts 0).events
          scan.db).0 in
      (next : Scan) × (process_file hash (suc (suc fuel)) true now atm_id path attempts scan
        ≡ some (returned true next))
      × IsRepeated hash atm_id path (c ++ x ∷ xs) first next
process_file-IsRepeated hash atm_id path c x xs s fuel now attempts scan shut few g y p small r₀ r₁
      f₀ f₁ dated calm =
    let content : Text = c ++ x ∷ xs in
    let lines = new_lines content c in
    let offset = length (bytes content) in
    let pass₀ : (d o e : Step) → before_processing (attempts 0).failure d o e ≡ e =
      λ d o e. rw f₀ refl in
    let pass₁ : (d o e : Step) → before_processing (attempts 1).failure d o e ≡ e =
      λ d o e. rw f₁ refl in
    let (mid, e₀, db₀, states₀) =
      parse_and_store-fails hash atm_id path 0 s (attempts 0) lines offset scan f₀ shut few in
    let t₀ =
      try_once-grown hash atm_id path 0 c x xs s (attempts 0) r₀.try scan g y p r₀.content_lem small
        r₀.hash_lem r₀.try_lem r₀.locked_lem pass₀ in
    let g₁ : get_file_state atm_id path mid.states ≡ some s =
      ap (get_file_state atm_id path) states₀ ∙ g in
    let (next, e₁, db₁, states₁) =
      parse_and_store-commits hash atm_id path s (attempts 1) lines offset mid f₁ in
    let t₁ =
      try_once-grown hash atm_id path 1 c x xs s (attempts 1) r₁.try mid g₁ y p r₁.content_lem small
        r₁.hash_lem r₁.try_lem r₁.locked_lem pass₁ in
    let (i, q) = get_file_state-key hash atm_id path s scan.states g in
    let result = parse_lines (attempts 0).line_now lines s.file_name in
    let again =
      parse_lines_again (attempts 0).line_now (attempts 1).line_now lines s.file_name atm_id
        (attempts 0).events (attempts 1).events scan.db dated calm in
    let (_, ev, hi, li) = again in
    let result₁ = parse_lines (attempts 1).line_now lines s.file_name in
    let same : next.db
        ≡ (process_result atm_id result₁.events result₁.cassette_snapshots (attempts 1).events
            (process_result atm_id result.events result.cassette_snapshots (attempts 0).events
              scan.db).0).0 =
      db₁ ∙ rw db₀ refl in
    let (ki, kp, _, _) = advance-key hash atm_id path (attempts 1) offset result₁.events s in
    (
      next,
      two_attempts hash atm_id path fuel now attempts scan mid next shut (t₀ ∙ e₀) (t₁ ∙ e₁),
      record {
        state = advance hash (attempts 1) offset result₁.events s;
        state_lem =
            ap (get_file_state atm_id path) states₁
            ∙ get_file_state-put_file_state hash atm_id path
                (advance hash (attempts 1) offset result₁.events s) mid.states (ki ∙ i) (kp ∙ q);
        synced_lem =
            advance-IsSynced hash atm_id path content (attempts 1) result₁.events s r₁.content_lem
              r₁.hash_lem;
        events_lem = ap (λ (db : Db). db.events) same ∙ ev;
        history_lem = ap (λ (db : Db). db.history) same ∙ hi;
        live_lem = ap (λ (db : Db). db.live) same ∙ li;
      },
    )
