-- ===== src/Scan/Sync.antt =====
-- `ParserService.process_file` of agent/services/parser_service.py on a journal that has grown.
use mathlib.Core.Option.{some-injective}
use mathlib.Core.Path.{subst}
use atm_monitoring_agent.Prelude.{
  ℕ, zero, suc, ◌≤◌, ◌<◌, ◌≡◌, min, Bool, true, false, not, ◌&&◌, List, [], ◌∷◌, ◌++◌, Option, none,
  some, length, take, arith, refl, sym, ap, ◌∙◌, Bool-cases, inl, inr, ltb, if◌then◌else◌, ◌==◌,
}
use atm_monitoring_agent.ParserModels.{Text, AtmParsedEvent}
use atm_monitoring_agent.TextOps.{text_eq_refl, text_eq-eq}
use atm_monitoring_agent.CircuitBreaker.{closed, can_execute, record_success}
use atm_monitoring_agent.FileUtils.{bytes, read_appended_lines, max_bytes}
use atm_monitoring_agent.FileUtils.Reading.{
  universal, concat, universal-not_empty, utf8_pos, size_cons,
}
use atm_monitoring_agent.FileUtils.Growth.{bytes-append, size-append, read_appended_lines-whole}
use atm_monitoring_agent.EjParser.Parse.{parse_lines}
use atm_monitoring_agent.Processor.{process_result}
use atm_monitoring_agent.Scan.{
  AgentFileState, get_file_state, put_file_state, Attempt, Scan, Step, returned, raised, retried,
  no_failure, unless_empty, unless_retried, header_hash, prefix_len, is_empty, is_state_of,
  last_event, note_event, load_state, advance, parse_and_store, try_once, scan_loop, process_file,
}

-- The journal `c` was read up to its end, and the hash is that of its beginning.
pub record IsSynced (hash : List ℕ → Text) (c : Text) (s : AgentFileState) : Type 0 where
  pub offset_lem : s.last_read_offset ≡ length (bytes c)
  pub hash_lem : s.file_hash ≡ hash (take (min 8192 (length (bytes c))) (bytes c))

take-append_le {ℓ} :
    {A : Type ℓ} (n : ℕ) (xs ys : List A) → n ≤ length xs → take n (xs ++ ys) ≡ take n xs
take-append_le zero xs ys h = refl
take-append_le (suc n) [] ys h = absurd (omega arith)
take-append_le (suc n) (x ∷ xs) ys h = ap (λ l. x ∷ l) (take-append_le n xs ys (omega arith))

and_false : (b : Bool) → (b && false) ≡ false
and_false true = refl
and_false false = refl

module _ (hash : List ℕ → Text) (atm_id : ℕ) (path : Text) where
  same_prefix :
      (c d : Text)
      → take (min 8192 (length (bytes c))) (bytes (c ++ d))
        ≡ take (min 8192 (length (bytes c))) (bytes c)
  same_prefix c d =
      rw (bytes-append c d)
        (take-append_le (min 8192 (length (bytes c))) (bytes c) (bytes d) (omega arith))

  header_hash-grown :
      (c d : Text) (s : AgentFileState) (a : Attempt)
      → IsSynced hash c s
      → 0 < length (bytes c)
      → a.content ≡ c ++ d
      → a.readable ≡ true
      → header_hash hash a (prefix_len hash (some s)) ≡ s.file_hash
  unfolding header_hash
  header_hash-grown c d s a y p e r =
      let o = y.offset_lem in
      let l : ltb 0 s.last_read_offset ≡ true = ground (arith, o, p) in
      rw (r, l, e, o, same_prefix c d) (sym y.hash_lem)

  pub load_state-grown :
      (c d : Text) (s : AgentFileState) (a : Attempt) (states : List AgentFileState)
      → get_file_state atm_id path states ≡ some s
      → IsSynced hash c s
      → 0 < length (bytes c)
      → a.content ≡ c ++ d
      → a.readable ≡ true
      → load_state hash atm_id path a states ≡ s
  unfolding load_state
  load_state-grown c d s a states g y p e r =
      let o = y.offset_lem in
      let z = size-append c d in
      let long : ltb (length (bytes a.content)) s.last_read_offset ≡ false =
        rw (e, o) (ground (arith, z)) in
      let same = text_eq_refl s.file_hash in
      rw (g, load_state)
        (rw (header_hash-grown c d s a y p e r, long, same)
          (rw (and_false (not (is_empty hash s.file_hash))) refl))

  pub get_file_state-key :
      (s : AgentFileState) (states : List AgentFileState)
      → get_file_state atm_id path states ≡ some s
      → (s.atm_id ≡ atm_id) × (s.file_path ≡ path)
  unfolding get_file_state
  get_file_state-key s [] h = ground arith
  get_file_state-key s (t ∷ states) h = elim (Bool-cases (is_state_of atm_id path t)) [
    | inl k ↦
        let same : t ≡ s =
          some-injective t s
            (subst (λ b. (if b then some t else get_file_state atm_id path states) ≡ some s) k h) in
        (
          ap (λ x. x.atm_id) (sym same) ∙ ground (arith, k),
          ap (λ x. x.file_path) (sym same) ∙ text_eq-eq t.file_path path (ground (arith, k)),
        )
    | inr k ↦
        get_file_state-key s states
          (subst (λ b. (if b then some t else get_file_state atm_id path states) ≡ some s) k h)
  ]

  pub get_file_state-put_file_state :
      (s : AgentFileState) (states : List AgentFileState)
      → s.atm_id ≡ atm_id
      → s.file_path ≡ path
      → get_file_state atm_id path (put_file_state s states) ≡ some s
  unfolding get_file_state put_file_state
  get_file_state-put_file_state s [] i p =
      let same : is_state_of atm_id path s ≡ true = rw (i, p) (ground (arith, text_eq_refl path)) in
      rw same refl
  get_file_state-put_file_state s (t ∷ states) i p =
      let same : is_state_of atm_id path s ≡ true = rw (i, p) (ground (arith, text_eq_refl path)) in
      let key : is_state_of s.atm_id s.file_path t ≡ is_state_of atm_id path t =
        ap (λ x. is_state_of x s.file_path t) i ∙ ap (λ x. is_state_of atm_id x t) p in
      elim (Bool-cases (is_state_of atm_id path t)) [
        | inl k ↦ simp (key, k, same) refl
        | inr k ↦ simp (key, k) (get_file_state-put_file_state s states i p)
      ]

  -- what the commit of a scan leaves of the state's place in the table
  pub advance-key :
      (a : Attempt) (offset : ℕ) (events : List AtmParsedEvent) (s : AgentFileState)
      → ((advance hash a offset events s).atm_id ≡ s.atm_id)
        × ((advance hash a offset events s).file_path ≡ s.file_path)
        × ((advance hash a offset events s).last_read_offset ≡ offset)
        × ((advance hash a offset events s).file_hash ≡ header_hash hash a (min 8192 offset))
  unfolding advance
  advance-key a offset events s = note_lem (last_event hash events) _
    where
      note_lem :
          (e : Option AtmParsedEvent) (t : AgentFileState)
          → ((note_event hash e t).atm_id ≡ t.atm_id)
            × ((note_event hash e t).file_path ≡ t.file_path)
            × ((note_event hash e t).last_read_offset ≡ t.last_read_offset)
            × ((note_event hash e t).file_hash ≡ t.file_hash)
      note_lem none t = (refl, refl, refl, refl)
      note_lem (some e) t = (refl, refl, refl, refl)

  pub advance-IsSynced :
      (c : Text) (a : Attempt) (events : List AtmParsedEvent) (s : AgentFileState)
      → a.content ≡ c
      → a.readable ≡ true
      → IsSynced hash c (advance hash a (length (bytes c)) events s)
  unfolding header_hash
  advance-IsSynced c a events s e r =
      let (_, _, o, h) = advance-key a (length (bytes c)) events s in
      record { offset_lem = o; hash_lem = h ∙ rw (r, e) refl }

  -- What a scan of the appended text `d` has done: its lines are all of `d`, their parse was processed,
  -- and the state is that of the whole journal.
  pub record IsScanned (c d : Text) (s : AgentFileState) (a : Attempt) (before next : Scan)
      : Type 0 where
    pub lines : List Text
    pub lines_lem : concat lines ≡ universal d
    pub db_lem : next.db ≡ (
        let result = parse_lines a.line_now lines s.file_name in
        (process_result atm_id result.events result.cassette_snapshots a.events before.db).0)
    pub state : AgentFileState
    pub state_lem : get_file_state atm_id path next.states ≡ some state
    pub synced_lem : IsSynced hash (c ++ d) state
    pub breaker_lem : next.breaker.state ≡ closed

  abbrev pub Scanned : Text → Text → AgentFileState → Attempt → Scan → Step → Type 0
  Scanned c d s a before (returned true next) = IsScanned c d s a before next
  Scanned c d s a before (returned false next) = ⊥
  Scanned c d s a before (raised next) = ⊥
  Scanned c d s a before (retried next) = ⊥

  pub parse_and_store-Scanned :
      (c d : Text) (s : AgentFileState) (a : Attempt) (lines : List Text) (offset : ℕ) (scan : Scan)
      → a.failure ≡ no_failure
      → a.content ≡ c ++ d
      → a.readable ≡ true
      → s.atm_id ≡ atm_id
      → s.file_path ≡ path
      → concat lines ≡ universal d
      → offset ≡ length (bytes (c ++ d))
      → Scanned c d s a scan (parse_and_store hash 0 atm_id a s lines offset scan)
  unfolding parse_and_store record_success
  parse_and_store-Scanned c d s a lines offset scan f e r i p l o =
      let result = parse_lines a.line_now lines s.file_name in
      let (ki, kp, _, _) = advance-key a offset result.events s in
      simp f (record {
        lines = lines;
        lines_lem = l;
        db_lem = refl;
        state = advance hash a offset result.events s;
        state_lem =
            get_file_state-put_file_state (advance hash a offset result.events s) scan.states
              (ki ∙ i) (kp ∙ p);
        synced_lem =
            subst (λ n. IsSynced hash (c ++ d) (advance hash a n result.events s)) (sym o)
              (advance-IsSynced (c ++ d) a result.events s e r);
        breaker_lem = refl;
      })

  pub unless_empty-Scanned :
      (c : Text) (x : ℕ) (xs : Text) (s : AgentFileState) (a : Attempt) (lines : List Text)
      (scan : Scan) (nothing something : Step)
      → concat lines ≡ universal (x ∷ xs)
      → Scanned c (x ∷ xs) s a scan something
      → Scanned c (x ∷ xs) s a scan (unless_empty lines nothing something)
  unless_empty-Scanned c x xs s a [] scan nothing something l h =
      absurd (universal-not_empty x xs (sym l))
  unless_empty-Scanned c x xs s a (line ∷ lines) scan nothing something l h = h

  try_once-Scanned :
      (c : Text) (x : ℕ) (xs : Text) (s : AgentFileState) (a : Attempt) (k : ℕ) (scan : Scan)
      → get_file_state atm_id path scan.states ≡ some s
      → IsSynced hash c s
      → 0 < length (bytes c)
      → a.content ≡ c ++ x ∷ xs
      → length (bytes (x ∷ xs)) < max_bytes
      → a.readable ≡ true
      → k < 5
      → a.locked k ≡ false
      → a.failure ≡ no_failure
      → Scanned c (x ∷ xs) s a scan (try_once hash 0 atm_id path a scan)
  unfolding try_once
  try_once-Scanned c x xs s a k scan g y p e small r h o f =
      let (i, q) = get_file_state-key s scan.states g in
      let z = size-append c (x ∷ xs) in
      let w = utf8_pos x in
      let v = size_cons x xs in
      let offset = y.offset_lem in
      let more : (length (bytes (c ++ x ∷ xs)) == length (bytes c)) ≡ false =
        ground (arith, z, w, v) in
      let (l, n) = read_appended_lines-whole a.locked a.behind c (x ∷ xs) k h o small in
      simp (load_state-grown c (x ∷ xs) s a scan.states g y p e r, f, e, offset, more)
        (unless_empty-Scanned c x xs s a
          (read_appended_lines a.locked a.behind (c ++ x ∷ xs) (length (bytes c))).0 scan _ _ l
          (parse_and_store-Scanned c (x ∷ xs) s a _ _ scan f e r i q l n))

  -- The first attempt of a scan decides, when the breaker is closed and the attempt does not retry.
  pub process_file_of_Scanned :
      (c d : Text) (s : AgentFileState) (fuel now : ℕ) (attempts : ℕ → Attempt) (scan : Scan)
      → scan.breaker.state ≡ closed
      → Scanned c d s (attempts 0) scan (try_once hash 0 atm_id path (attempts 0) scan)
      → (next : Scan) × (process_file hash (suc fuel) true now atm_id path attempts scan
          ≡ some (returned true next))
        × IsScanned c d s (attempts 0) scan next
  unfolding process_file scan_loop can_execute
  process_file_of_Scanned c d s fuel now attempts scan shut h =
      simp shut (first_step (try_once hash 0 atm_id path (attempts 0) scan) _ h)
    where
      first_step :
          (t : Step) (again : Scan → Option Step)
          → Scanned c d s (attempts 0) scan t
          → (next : Scan) × (unless_retried t again ≡ some (returned true next))
            × IsScanned c d s (attempts 0) scan next
      first_step (returned true next) again h = (next, refl, h)
      first_step (returned false next) again h = absurd h
      first_step (raised next) again h = absurd h
      first_step (retried next) again h = absurd h

-- A journal that was read up to its end has grown by a text that is not empty and is below 10 MiB,
-- and nothing fails: a scan reads exactly the appended text, processes the parse of its lines,
-- returns true with a closed breaker, and leaves the file state of the whole journal, so that the
-- next scan continues there. Growth is not taken for a rotation, whatever the hash function is.
pub process_file-IsScanned :
    (hash : List ℕ → Text) (atm_id : ℕ) (path : Text) (c : Text) (x : ℕ) (xs : Text)
    (s : AgentFileState) (fuel now k : ℕ) (attempts : ℕ → Attempt) (scan : Scan)
    → scan.breaker.state ≡ closed
    → get_file_state atm_id path scan.states ≡ some s
    → IsSynced hash c s
    → 0 < length (bytes c)
    → (attempts 0).content ≡ c ++ x ∷ xs
    → length (bytes (x ∷ xs)) < max_bytes
    → (attempts 0).readable ≡ true
    → k < 5
    → (attempts 0).locked k ≡ false
    → (attempts 0).failure ≡ no_failure
    → (next : Scan) × (process_file hash (suc fuel) true now atm_id path attempts scan
        ≡ some (returned true next))
      × IsScanned hash atm_id path c (x ∷ xs) s (attempts 0) scan next
process_file-IsScanned hash atm_id path c x xs s fuel now k attempts scan shut g y p e small r h o
      f =
    process_file_of_Scanned hash atm_id path c (x ∷ xs) s fuel now attempts scan shut
      (try_once-Scanned hash atm_id path c x xs s (attempts 0) k scan g y p e small r h o f)
